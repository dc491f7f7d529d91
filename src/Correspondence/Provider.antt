-- ===== src/Correspondence/Provider.antt =====
-- src/external/controlled_mail.py: the controlled provider.
use tally_agentic_memory.Prelude.{
  String, Bool, true, false, not, Option, none, some, List, [], ◌∷◌, find, str_eq, if◌then◌else◌,
}
use tally_agentic_memory.Prelude.Python.{Python, concat}
use tally_agentic_memory.Prelude.Result.{Result, ok, err}

-- `RECIPIENT_CLASS`
abbrev pub recipient_class_controlled : String
recipient_class_controlled = "CONTROLLED_DEMONSTRATION_INBOX"

-- `ACK_DISCLAIMER`
abbrev pub ack_disclaimer : String
ack_disclaimer = "Delivery acknowledgement does not indicate carrier receipt or acceptance."

pub record ControlledSendReceipt : Type 0 where
  pub provider_message_id : String
  pub recipient_class : String
  pub duplicate : Bool
  pub disclaimer : String

-- `DemonstrationInboxProvider`: `_delivered`, by its items, and `_fail`.
pub record Provider : Type 0 where
  pub delivered : List (String × String)
  pub fails : Bool

abbrev pub delivered_under : String → Provider → Option (String × String)
delivered_under key p = find (λ (item : String × String). str_eq item.0 key) p.delivered

abbrev pub receipt : String → Bool → ControlledSendReceipt
receipt message_id duplicate = record {
  provider_message_id = message_id;
  recipient_class = recipient_class_controlled;
  duplicate = duplicate;
  disclaimer = ack_disclaimer;
}

-- The subject and the body do not enter the answer.
unfoldable pub send :
    Python → String → String → Provider → Result {0} String (ControlledSendReceipt × Provider)
send python key recipient_class p =
    if not (str_eq recipient_class recipient_class_controlled)
    then err "RECIPIENT_NOT_CONTROLLED"
    else if p.fails
    then err "PROVIDER_UNAVAILABLE"
    else elim (delivered_under key p) [
      | some item ↦ ok (receipt item.1 true, p)
      | none ↦
          let message_id = concat ("demo-" ∷ python.prefix 16 key ∷ []) in
          ok (receipt message_id false, record p { delivered = (key, message_id) ∷ p.delivered })
    ]
