-- ===== src/Outbound.antt =====
-- channels-go/internal/outbound/outbound.go and integrations/emailses/builder.go: the adapters by
-- account type, and the e-mails built for one of them.
pub mod Api
pub mod Handler
pub mod Sending
pub mod Effect
pub mod Answer
mod Examples
use fieldwatchai_comms_openk.Prelude.{
  ℕ, suc, Bool, true, false, not, ◌&&◌, Option, none, some, List, [], ◌∷◌, ◌++◌, map, take, length,
  find, ◌==◌, comparable_nat, comparable_list, codes, if◌then◌else◌,
}
use fieldwatchai_comms_openk.Parser.{Unicode, trim_space}
use fieldwatchai_comms_openk.Store.{Text, Raw}
use fieldwatchai_comms_openk.World.{Outgoing, plain, Send}

-- `TypeEmailSES`
abbrev pub email_ses : Text
email_ses = codes "email-ses"

-- `Tokenless`
unfoldable pub tokenless : Text → Bool
tokenless type = type == email_ses

-- An adapter implements `Outbound` only, or `RichOutbound` also.
pub data Adapter : Type 0 where
  chat rich : Adapter

-- `Registry`
abbrev pub Registry : Type 0
Registry = List (Text × Adapter)

-- `Register`: the last of an account type counts.
unfoldable pub register : Text → Adapter → Registry → Registry
register type adapter reg = (type, adapter) ∷ reg

-- `Get`
unfoldable pub get : Text → Registry → Option Adapter
get type reg = elim (find (λ r. r.0 == type) reg) [ none ↦ none | some r ↦ some r.1 ]

-- What `Dispatch` gives to the adapter: a chat adapter takes the address and the text.
unfoldable pub handed : Adapter → Outgoing → Outgoing
handed chat msg = plain msg.to msg.body
handed rich msg = msg

-- `commonHeaders`
pub record CommonHeaders : Type 0 where
  pub message_id : Text
  pub subject : Text
  pub references : List Text

-- `strings.Join`
unfoldable pub join_texts : Text → List Text → Text
join_texts sep [] = []
join_texts sep (s ∷ []) = s
join_texts sep (s ∷ t ∷ ts) = s ++ (sep ++ join_texts sep (t ∷ ts))

-- `strings.HasPrefix`
unfoldable pub has_prefix : Text → Text → Bool
has_prefix s prefix = take (length prefix) s == prefix

-- What stands before the first `@`; none if there is no `@`.
unfoldable pub before_at : Text → Option Text
before_at [] = none
before_at (c ∷ s) = elim (before_at s) [
  | none ↦ if c == b'@' then some [] else none
  | some t ↦ if c == b'@' then some [] else some (c ∷ t)
]

-- The local part of `BuildReply` and `BuildNew`.
unfoldable pub local_part : Text → Text
local_part address = elim (before_at address) [
  | none ↦ address
  | some [] ↦ address
  | some (c ∷ s) ↦ c ∷ s
]

-- What the builder takes from the process and from the libraries: `strings.ToLower` by its runes,
-- `json.Unmarshal` of a provider's envelope, into the headers under `mail` and those at the top, and
-- the two package variables.
pub record Mailer : Type 0 where
  pub unicode : Unicode
  pub headers_of : Raw → Option (CommonHeaders × CommonHeaders)
  pub fallback_domain : Text
  pub default_subject : Text

abbrev is_empty : Text → Bool
is_empty [] = true
is_empty (c ∷ s) = false

-- `parseThreading`: the subject, the message id and the references.
unfoldable pub parse_threading : Mailer → Raw → Text × Text × Text
parse_threading m raw = elim (m.headers_of raw) [
  | none ↦ ([], [], [])
  | some (nested, top) ↦
      let ch = if is_empty nested.message_id && is_empty nested.subject then top else nested in
      (ch.subject, ch.message_id, join_texts (codes " ") ch.references)
]

-- The subject of a reply.
unfoldable pub reply_subject : Mailer → Text → Text
reply_subject m subject =
    let re = trim_space subject in
    if is_empty re
    then codes "Re:"
    else if has_prefix (map m.unicode.lower re) (codes "re:")
    then re
    else codes "Re: " ++ re

-- `BuildReply`
unfoldable pub build_reply : Mailer → Text → Text → Text → Raw → Outgoing
build_reply m ingest_address to body raw_payload =
    let (subject, message_id, references) = parse_threading m raw_payload in
    record {
      to = to;
      body = body;
      subject = reply_subject m subject;
      from = local_part ingest_address ++ (codes "@" ++ m.fallback_domain);
      reply_to = ingest_address;
      in_reply_to = message_id;
      references = trim_space (join_texts (codes " ") (references ∷ message_id ∷ []));
    }

-- `BuildNew`
unfoldable pub build_new : Mailer → Text → Text → Text → Text → Outgoing
build_new m ingest_address to subject body = record {
  to = to;
  body = body;
  subject = if is_empty (trim_space subject) then m.default_subject else subject;
  from = local_part ingest_address ++ (codes "@" ++ m.fallback_domain);
  reply_to = ingest_address;
  in_reply_to = [];
  references = [];
}
