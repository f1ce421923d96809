-- ===== src/MessageHandlers/Steps/Quiet.antt =====
-- internal/gateway/handlers_message.go: the shared steps leave the messages alone.
use aural_server.Base.{
  ℕ, String, ◌≡◌, refl, subst, sym, Bool, true, false, Option, none, some, List, [], ◌∷◌,
}
use aural_server.Text.{Text}
use aural_server.Store.{Outcome, done, missing, broken}
use aural_server.Store.MessageRows.{MessageRow}
use aural_server.AutoMod.Screen.{Fired, fired, fired_relayed, screen}
use aural_server.Server.{Server, Session, Event, Relayed, broadcast_to}
use aural_server.RateLimit.{allow}
use aural_server.Server.Sync.{put_session}
use aural_server.Server.Quiet.{
  Same, Same-refl, Same-trans, Quiet, QuietAct, QuietCall, Quiet-bind, Quiet-check, Quiet-pure,
  Quiet-act, Quiet-attempt, QuietCall-query, QuietAct-audit, audit_unattended-Same,
}
use aural_server.Channels.Handlers.{broadcast_channel_event}
use aural_server.MessageHandlers.{Setting}
use aural_server.MessageHandlers.Steps.{
  audit_rule, insist, insisted, load_visible_message, load_visible_post, allowed,
  take_message_token, audit_auto_mod, audit_all, screened, preview_of, resolve_message_reply, relay,
}

insisted-state : {A : Type 0} (what : String) (p : Outcome A × Server) → (insisted what p).1 ≡ p.1
unfolding insisted
insisted-state what (done a, s) = refl
insisted-state what (missing, s) = refl
insisted-state what (broken, s) = refl

pub Quiet-insist :
    {A : Type 0} (what : String) (f : Server → Outcome A × Server)
    → QuietCall f
    → Quiet (insist what f)
unfolding insist
Quiet-insist what f h = record {
  at = λ s. subst (Same s) (sym (insisted-state what (f s))) (h.at s);
}

audit_all-Same :
    (actor : Session) (channel_id : ℕ) (log : List Fired) (s : Server)
    → Same s (audit_all actor channel_id log s)
unfolding audit_all audit_auto_mod audit_rule
audit_all-Same actor channel_id [] s = Same-refl s
audit_all-Same actor channel_id (fired rule action ∷ rest) s =
    Same-trans (audit_unattended-Same _ s) (audit_all-Same actor channel_id rest _)
audit_all-Same actor channel_id (fired_relayed author rule action ∷ rest) s =
    Same-trans (audit_unattended-Same _ s) (audit_all-Same actor channel_id rest _)

pub QuietAct-broadcast :
    (e : Event) (channel_id : ℕ) → QuietAct (broadcast_channel_event e channel_id)
unfolding broadcast_channel_event broadcast_to
QuietAct-broadcast e channel_id = record {
  at = λ s. record { same_messages = refl; same_hub = refl; sound = λ f. f };
}

pub QuietAct-relay : (r : Relayed) → QuietAct (relay r)
unfolding relay
QuietAct-relay r = record {
  at = λ s. record { same_messages = refl; same_hub = refl; sound = λ f. f };
}

allowed-Same :
    (what : String) (actor : Session) (b : Bool) (s s' : Server)
    → Same s s'
    → Same s (allowed what actor b s').1
unfolding allowed
allowed-Same what actor true s s' h = h
allowed-Same what actor false s s' h = h

pub Quiet-token :
    (cfg : Setting) (actor : Session) (what : String) → Quiet (take_message_token cfg actor what)
unfolding take_message_token
Quiet-token cfg actor what = record {
  at = λ s.
      let taken = allow cfg.now actor.messages in
      let actor' = record actor { messages = taken.1 } in
      allowed-Same what actor' taken.0 s (record s { sessions = put_session actor' s.sessions })
        (record { same_messages = refl; same_hub = refl; sound = λ f. f });
}

pub Quiet-screened :
    (cfg : Setting) (actor : Session) (channel_id : ℕ) (content : Text) (sending : Bool)
    → Quiet (screened cfg actor channel_id content sending)
unfolding screened
Quiet-screened cfg actor channel_id content sending = record {
  at = λ s.
      Same-trans
        (audit_all-Same actor channel_id
          (screen cfg.tables cfg.auto_mod
            (record {
              base = actor.base;
              role_ids = actor.role_ids;
              recent = actor.recent;
              now = cfg.now;
            })
            channel_id content sending).log
          s)
        (record { same_messages = refl; same_hub = refl; sound = λ f. f });
}

pub Quiet-load : (actor : Session) (id : ℕ) → Quiet (load_visible_message actor id)
unfolding load_visible_message
Quiet-load actor id = Quiet-bind _ _ (Quiet-attempt _ _ _ (QuietCall-query _)) (λ m. Quiet-check _)

pub Quiet-post : (actor : Session) (id : ℕ) → Quiet (load_visible_post actor id)
unfolding load_visible_post
Quiet-post actor id = Quiet-bind _ _ (Quiet-attempt _ _ _ (QuietCall-query _)) (λ m. Quiet-check _)

preview-Same :
    (id : ℕ) (p : Outcome MessageRow × Server) (s : Server)
    → Same s p.1
    → Same s (preview_of id p).1
unfolding preview_of
preview-Same id (done m, s') s h = h
preview-Same id (missing, s') s h = h
preview-Same id (broken, s') s h = h

pub resolve-Same : (o : Option ℕ) (s : Server) → Same s (resolve_message_reply o s).1
unfolding resolve_message_reply
resolve-Same none s = Same-refl s
resolve-Same (some id) s = preview-Same id _ s ((QuietCall-query _).at s)

pub ruleset quiet_rules = (
  Quiet-bind, Quiet-check, Quiet-pure, Quiet-act, Quiet-attempt, Quiet-insist, QuietCall-query,
  QuietAct-audit, QuietAct-broadcast, QuietAct-relay, Quiet-token, Quiet-screened, Quiet-load,
  Quiet-post,
)
