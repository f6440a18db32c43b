-- ===== src/Examples/Publishing.antt =====
-- A connection that is sent what is published for its user.
use say.Base.{◌≡◌, refl, some, List, [], ◌∷◌, lookup, put, remove}
use say.Protocol.JsonTree.{null}
use say.Realtime.{Hub, new_hub, new_subscriber, add}
use say.Realtime.Delivery.{Act, publishes, takes, Served, publish-Served}

abbrev connected : Hub
connected = add 0 "ann" new_hub

abbrev acts : List Act
acts = publishes "ann" "message.new" null ∷ publishes "bob" "message.new" null ∷ takes 0 ∷ []

stands : connected.objects 0 ≡ some new_subscriber
unfolding add lookup put remove
stands = refl

publish-Served_example : Served 0 acts connected []
publish-Served_example = publish-Served 0 acts connected new_subscriber stands refl
