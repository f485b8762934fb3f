-- ===== src/Canonical.antt =====
-- channels-go/internal/canonical/message.go: the message that the webhook hands over. Texts are
-- lists of runes, and a coordinate is its decimal text.
use fieldwatchai_comms_openk.Prelude.{ℕ, Option, List}

abbrev pub Text : Type 0
Text = List ℕ

-- `Location`
pub record Location : Type 0 where
  pub lat : Text
  pub lng : Text

-- `Attachment`
pub record Attachment : Type 0 where
  pub type : Text
  pub url : Text
  pub mime : Option Text
  pub filename : Option Text

-- `Body`
pub record Body : Type 0 where
  pub text : Option Text
  pub attachments : List Attachment
  pub location : Option Location

-- `Meta`; `raw_payload` is empty where it is nil.
pub record Meta : Type 0 where
  pub platform_message_id : Text
  pub received_at : Text
  pub account_id : Text
  pub raw_payload : Text

-- `Message`, with the one field of `Sender` that the pipeline reads.
pub record Message : Type 0 where
  pub sender_endpoint : Text
  pub body : Body
  pub meta : Meta
