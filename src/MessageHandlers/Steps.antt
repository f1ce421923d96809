-- ===== src/MessageHandlers/Steps.antt =====
-- internal/gateway/handlers_message.go and internal/gateway/handlers_post.go: the steps that the
-- handlers of messages share.
pub mod Quiet
pub mod Loaded
use aural_server.Base.{
  ℕ, zero, suc, String, Bool, true, false, not, ◌&&◌, Option, none, some, List, [], ◌∷◌, ◌++◌, ◌==◌,
  if◌then◌else◌,
}
use text.Mathlib.Text.{◌==◌ as str_eq}
use aural_server.Text.{Text}
use aural_server.Permissions.{Permission, view_channel}
use aural_server.Hub.{Hub, Channel, channel}
use aural_server.Protocol.{
  Result, ok, err, refuse, internal, not_found, rate_limited, automod_blocked,
}
use aural_server.Store.{Db, Outcome, done, missing, broken}
use aural_server.Store.MessageRows.{MessageRow, AttachmentRow, PostRow}
use aural_server.Store.Messages.{message_by_id, post_by_id}
use aural_server.RateLimit.{allow}
use aural_server.AutoMod.Screen.{
  Fired, fired, fired_relayed, RuleName, by_flood, by_repetition, by_mentions, by_caps, by_links,
  by_words, Verdict, refused, passed, Writer, Screened, screen,
}
use aural_server.Server.{
  Server, Session, Handler, Relayed, query, audit_unattended, ReferencedMessage,
}
use aural_server.Server.Exec.{◌>>=◌, ◌>>◌, pure, check, attempt}
use aural_server.Server.Sync.{put_session, session_can_view}
use aural_server.Roles.Handlers.{audit_target}
use aural_server.MessageHandlers.{Setting, require_post_channel, referenced_message_view}

-- A call of the store after which any error is answered by `internalError`.
unfoldable pub insisted : {A : Type 0} → String → Outcome A × Server → Result A × Server
insisted what (done a, s) = (ok a, s)
insisted what (missing, s) = (refuse internal what, s)
insisted what (broken, s) = (refuse internal what, s)

unfoldable pub insist : {A : Type 0} → String → (Server → Outcome A × Server) → Handler A
unfolding insisted
insist what call s = insisted what (call s)

-- `loadVisibleMessage`.
unfoldable pub load_visible_message : Session → ℕ → Handler MessageRow
load_visible_message actor id =
    attempt "no such message" "the server failed to read the message"
      (query (λ db. message_by_id db id))
    >>= λ m. check (λ s.
      if session_can_view s.hub actor m.channel_id
      then ok m
      else refuse not_found "no such message")

-- A post in a channel that the caller may not see, or that holds none, is not there.
hidden_post : PostRow → Result Channel → Result (PostRow × Channel)
hidden_post post (ok c) = ok (post, c)
hidden_post post (err e) = refuse not_found "no such post"

-- `loadVisiblePost`.
unfoldable pub load_visible_post : Session → ℕ → Handler (PostRow × Channel)
unfolding hidden_post
load_visible_post actor id =
    attempt "no such post" "the server failed to read the post" (query (λ db. post_by_id db id))
    >>= λ post.
        check
          (λ s. hidden_post post (require_post_channel s.hub actor post.channel_id view_channel))

allowed : String → Session → Bool → Server → Result Session × Server
allowed what actor true s = (ok actor, s)
allowed what actor false s = (refuse rate_limited what, s)

-- `s.messages.allow()`: the session with what is left of its bucket.
unfoldable pub take_message_token : Setting → Session → String → Handler Session
unfolding allowed
take_message_token cfg actor what s =
    let taken = allow cfg.now actor.messages in
    let actor' = record actor { messages = taken.1 } in
    allowed what actor' taken.0 (record s { sessions = put_session actor' s.sessions })

rule_text : RuleName → Text
rule_text by_flood = b'f' ∷ b'l' ∷ b'o' ∷ b'o' ∷ b'd' ∷ []
rule_text by_repetition = b'r' ∷ b'e' ∷ b'p' ∷ b'e' ∷ b't' ∷ b'i' ∷ b't' ∷ b'i' ∷ b'o' ∷ b'n' ∷ []
rule_text by_mentions = b'm' ∷ b'e' ∷ b'n' ∷ b't' ∷ b'i' ∷ b'o' ∷ b'n' ∷ b's' ∷ []
rule_text by_caps = b'c' ∷ b'a' ∷ b'p' ∷ b's' ∷ []
rule_text by_links = b'l' ∷ b'i' ∷ b'n' ∷ b'k' ∷ b's' ∷ []
rule_text by_words = b'w' ∷ b'o' ∷ b'r' ∷ b'd' ∷ b's' ∷ []

action_text : String → Text
action_text action =
    if str_eq action "censor"
    then b'c' ∷ b'e' ∷ b'n' ∷ b's' ∷ b'o' ∷ b'r' ∷ []
    else b'b' ∷ b'l' ∷ b'o' ∷ b'c' ∷ b'k' ∷ []

name_of : Option Channel → Text
name_of none = []
name_of (some c) = c.name

-- The entry that a rule fired in a channel, for an author.
audit_rule : ℕ → Text → Text → Server → Server
unfolding name_of
audit_rule channel_id author reason s =
    audit_unattended
      (record (audit_target "automod.action" "channel" channel_id
        (name_of (channel s.hub channel_id))) {
          reason = reason;
          changes = record { key = "author"; before = []; after = author } ∷ [];
        })
      s

relayed_mark : Text
relayed_mark = b',' ∷ 32 ∷ b'r' ∷ b'e' ∷ b'l' ∷ b'a' ∷ b'y' ∷ b'e' ∷ b'd' ∷ []

-- `auditAutoMod`, and `auditRelayAutoMod` for what a bridge brought in.
unfoldable pub audit_auto_mod : Session → ℕ → Fired → Server → Server
unfolding rule_text action_text audit_rule relayed_mark
audit_auto_mod actor channel_id (fired rule action) s =
    audit_rule channel_id actor.user.nickname
      (rule_text rule ++ (32 ∷ b'(' ∷ action_text action) ++ (b')' ∷ [])) s
audit_auto_mod actor channel_id (fired_relayed author rule action) s =
    audit_rule channel_id author
      (rule_text rule ++ (32 ∷ b'(' ∷ action_text action) ++ relayed_mark ++ (b')' ∷ [])) s

audit_all : Session → ℕ → List Fired → Server → Server
unfolding audit_auto_mod
audit_all actor channel_id [] s = s
audit_all actor channel_id (f ∷ rest) s =
    audit_all actor channel_id rest (audit_auto_mod actor channel_id f s)

-- What a writer is told of a rule that refuses; the message on mentions leaves out the limit.
refusal_text : RuleName → String
refusal_text by_flood = "you are sending messages too quickly"
refusal_text by_repetition = "that message has already been sent"
refusal_text by_mentions = "a message may address no more people here"
refusal_text by_caps = "that message is mostly capitals"
refusal_text by_links = "links are not allowed here"
refusal_text by_words = "that message contains a word this server does not allow"

judged : Verdict → Result Text
unfolding refusal_text
judged (refused rule) = refuse automod_blocked (refusal_text rule)
judged (passed content censored) = ok content

-- `screenMessage` and `screenText`, with what they leave in the log and in the session.
unfoldable pub screened : Setting → Session → ℕ → Text → Bool → Handler Text
unfolding judged audit_all
screened cfg actor channel_id content sending s =
    let writer : Writer = record {
      base = actor.base;
      role_ids = actor.role_ids;
      recent = actor.recent;
      now = cfg.now;
    } in
    let came = screen cfg.tables cfg.auto_mod writer channel_id content sending in
    let logged = audit_all actor channel_id came.log s in
    let actor' = record actor { recent = came.recent } in
    (judged came.verdict, record logged { sessions = put_session actor' logged.sessions })

-- The preview of the message that another one answers, if that can be read.
preview_of : ℕ → Outcome MessageRow × Server → Option ReferencedMessage × Server
preview_of id (done m, s) = (some (referenced_message_view (some m) id), s)
preview_of id (missing, s) = (some (referenced_message_view none id), s)
preview_of id (broken, s) = (some (referenced_message_view none id), s)

-- `resolveMessageReply`.
unfoldable pub resolve_message_reply : Option ℕ → Server → Option ReferencedMessage × Server
unfolding preview_of
resolve_message_reply none s = (none, s)
resolve_message_reply (some id) s = preview_of id (query (λ db. message_by_id db id) s)

-- A call of a bridge.
unfoldable pub relay : Relayed → Server → Server
relay r s = record s { relayed = s.relayed ++ r ∷ [] }
