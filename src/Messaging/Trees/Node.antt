-- ===== src/Messaging/Trees/Node.antt =====
-- messaging/models.py, trees/identity.py, trees/node.py and trees/transitions.py.
use free_claude_code_my_pr_i.Prelude.{
  ℕ, String, Bool, true, false, not, ◌&&◌, ◌||◌, Option, none, some, List, str_eq, if◌then◌else◌,
}

pub record MessageScope : Type 0 where
  pub platform : String
  pub chat_id : String

unfoldable pub scope_eq : MessageScope → MessageScope → Bool
scope_eq a b = str_eq a.platform b.platform && str_eq a.chat_id b.chat_id

pub record TreeIdentity : Type 0 where
  pub scope : MessageScope
  pub root_id : String

pub data MessageState : Type 0 where
  pending in_progress completed error : MessageState

pub data MessageReferenceKind : Type 0 where
  prompt_reference status_reference : MessageReferenceKind

pub record MessageNode : Type 0 where
  pub node_id : String
  pub scope : MessageScope
  pub prompt : String
  pub status_message_id : Option String
  pub state : MessageState
  pub parent_id : Option String
  pub parent_reference_id : Option String
  pub session_id : Option String
  pub children_ids : List String

abbrev pub is_pending : MessageState → Bool
is_pending pending = true
is_pending _ = false

abbrev pub is_in_progress : MessageState → Bool
is_in_progress in_progress = true
is_in_progress _ = false

abbrev pub is_error : MessageState → Bool
is_error error = true
is_error _ = false

abbrev pub is_completed : MessageState → Bool
is_completed completed = true
is_completed _ = false

-- `state in (MessageState.PENDING, MessageState.IN_PROGRESS)`
abbrev pub is_runnable : MessageState → Bool
is_runnable s = is_pending s || is_in_progress s

-- The truth of an optional text: neither `None` nor empty.
abbrev pub is_given : Option String → Bool
is_given none = false
is_given (some s) = not (str_eq s "")

unfoldable pub update_state : MessageState → Option String → MessageNode → MessageNode
update_state state session n = record n {
  state = state;
  session_id = if is_given session then session else n.session_id;
}

unfoldable pub mark_error : MessageNode → MessageNode
unfolding update_state
mark_error n = update_state error none n

unfoldable pub clear_status : MessageNode → MessageNode
unfolding mark_error
clear_status n = mark_error (record n { status_message_id = none; session_id = none })

pub record NodeUiTarget : Type 0 where
  pub scope : MessageScope
  pub node_id : String
  pub status_message_id : String

pub record NodeClaim : Type 0 where
  pub identity : TreeIdentity
  pub claim_id : String
  pub node : NodeUiTarget
  pub prompt : String
  pub parent_session_id : Option String

pub record QueueEntry : Type 0 where
  pub node : NodeUiTarget
  pub position : ℕ

pub data AdmissionRejection : Type 0 where
  duplicate parent_removed : AdmissionRejection

-- `node_to_snapshot`, without the rendering of its values as text.
pub record NodeSnapshot : Type 0 where
  pub node_id : String
  pub status_message_id : Option String
  pub state : MessageState
  pub parent_id : Option String
  pub parent_reference_id : Option String
  pub session_id : Option String

pub record TreeSnapshot : Type 0 where
  pub scope : MessageScope
  pub root_id : String
  pub nodes : List (String × NodeSnapshot)

unfoldable pub node_to_snapshot : MessageNode → NodeSnapshot
node_to_snapshot n = record {
  node_id = n.node_id;
  status_message_id = n.status_message_id;
  state = n.state;
  parent_id = n.parent_id;
  parent_reference_id = n.parent_reference_id;
  session_id = n.session_id;
}

pub record QueueDecision : Type 0 where
  pub claim : Option NodeClaim
  pub position : Option ℕ
  pub snapshot : Option TreeSnapshot
  pub rejection : Option AdmissionRejection

pub record CompletionResult : Type 0 where
  pub next_claim : Option NodeClaim
  pub queue : List QueueEntry

pub record TreeCancellation : Type 0 where
  pub nodes : List NodeUiTarget
  pub active_claim : Option NodeClaim
  pub queue_update : Option (List QueueEntry)

pub record FailureResult : Type 0 where
  pub affected : List NodeUiTarget
  pub queue_update : Option (List QueueEntry)
  pub snapshot : Option TreeSnapshot

pub record ReplyTarget : Type 0 where
  pub node_id : String
  pub reference_id : String
  pub reference_kind : MessageReferenceKind
  pub queue_position : Option ℕ

pub record NodeView : Type 0 where
  pub identity : TreeIdentity
  pub node_id : String
  pub state : MessageState
  pub parent_id : Option String
  pub session_id : Option String

-- The exception that the package raises, and the end of a loop's fuel, which no run reaches.
pub data TreeError : Type 0 where
  value_error out_of_fuel : TreeError

pub data Result {ℓ} (A : Type ℓ) : Type ℓ where
  ok : A → Result A
  err : TreeError → Result A
