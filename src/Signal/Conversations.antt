-- ===== src/Signal/Conversations.antt =====
-- conversations of internal/signalworker/service.go.
pub mod Addressable
use say.Base.{String, cat, Option, none, some, List, [], ◌∷◌, ◌++◌, ◌==◌, if◌then◌else◌}
use say.Protocol.Payloads.{WireConversation}
use say.Signal.{Service, Rpc, answered, rpc_failed, Outcome, success, failure, command_error}

pub record Group : Type 0 where
  pub id : String
  pub group_id : String
  pub name : String

pub record Contact : Type 0 where
  pub number : String
  pub name : String
  pub profile_name : String

abbrev pub or_else : String → String → String
or_else s t = if s == "" then t else s

abbrev pub group_conversation : Group → Option WireConversation
group_conversation g =
    let id = or_else g.id g.group_id in
    if id == ""
    then none
    else some (record {
      provider_id = cat "group:" id;
      title = or_else g.name "Signal group";
      kind = "group";
    })

abbrev pub contact_conversation : Contact → Option WireConversation
contact_conversation c =
    if c.number == ""
    then none
    else some (record {
      provider_id = cat "user:" c.number;
      title = or_else (or_else c.name c.profile_name) c.number;
      kind = "direct";
    })

abbrev pub append : Option WireConversation → List WireConversation → List WireConversation
append none l = l
append (some c) l = c ∷ l

unfoldable pub of_groups : List Group → List WireConversation
of_groups [] = []
of_groups (g ∷ rest) = append (group_conversation g) (of_groups rest)

unfoldable pub of_contacts : List Contact → List WireConversation
of_contacts [] = []
of_contacts (c ∷ rest) = append (contact_conversation c) (of_contacts rest)

unfoldable pub conversations :
    Rpc (List Group) → Rpc (List Contact) → Service → Outcome (List WireConversation)
unfolding of_groups of_contacts
conversations groups contacts s =
    if s.account == ""
    then command_error "signal_unlinked" "Signal account is not linked"
    else listed groups contacts
  where
    listed : Rpc (List Group) → Rpc (List Contact) → Outcome (List WireConversation)
    listed (rpc_failed late) contacts =
        command_error "signal_list_failed" "Signal failed to list groups"
    listed (answered gs) (rpc_failed late) =
        command_error "signal_list_failed" "Signal failed to list contacts"
    listed (answered gs) (answered cs) = success (of_groups gs ++ of_contacts cs)
