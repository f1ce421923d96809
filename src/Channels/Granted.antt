-- ===== src/Channels/Granted.antt =====
-- internal/gateway/handlers_channel.go: the overwrites that an update may set.
use aural_server.Base.{
  ℕ, String, ◌≡◌, refl, ap, sym, subst, ◌∙◌, Bool, true, false, Option, none, some, List, [], ◌∷◌,
  All, arith,
}
use aural_server.Base.Bits.{test_bit, bit_clear, test_bit-clear}
use aural_server.Permissions.{Permission, Overwrite, has, parse, manage_roles}
use aural_server.Hub.{Hub, Channel, channel}
use aural_server.Protocol.{
  Result, ok, require_some, require, Code, forbidden, not_found, bad_request, >>=-eq-ok,
}
use aural_server.Server.{Session}
use aural_server.Channels.{
  ChannelUpdateRequest, ChannelPatch, WireOverwrite, check_channel_update, overwrites_from_view,
  all_held, patch_overwrites, patch_parent, patch_place, patch_limit, patch_topic,
  patch_channel_name, require_channel_permission, role_exists,
}
use aural_server.Permissions.{manage_channels}

-- An overwrite of what the caller holds, with no bit both allowed and denied.
pub record IsGranted (base : Permission) (o : Overwrite) : Type 0 where
  pub allow_held : has base o.allow ≡ true
  pub deny_held : has base o.deny ≡ true
  pub apart : (i : ℕ) → test_bit o.allow i ≡ true → test_bit o.deny i ≡ false

Apart : Overwrite → Type 0
Apart o = (i : ℕ) → test_bit o.allow i ≡ true → test_bit o.deny i ≡ false

clear_apart :
    (deny allow i : ℕ) → test_bit allow i ≡ true → test_bit (bit_clear deny allow) i ≡ false
clear_apart deny allow i h = ground (arith, test_bit-clear deny allow i)

read-Apart :
    (h : Hub) (raw : List WireOverwrite) (list : List Overwrite)
    → overwrites_from_view h raw ≡ ok list
    → All Apart list
unfolding overwrites_from_view Apart
read-Apart h [] [] e = tt
read-Apart h [] (o ∷ list) e = cc
read-Apart h (w ∷ raw) list e =
    let (u, known, e1) =
      >>=-eq-ok (require (role_exists h w.role_id) not_found "overwrite refers to unknown role") _
        e in
    let (allow, a, e2) =
      >>=-eq-ok
        (require_some (parse w.allow) bad_request
          "overwrite allow mask is not a decimal permission string")
        _ e1 in
    let (deny, d, e3) =
      >>=-eq-ok
        (require_some (parse w.deny) bad_request
          "overwrite deny mask is not a decimal permission string")
        _ e2 in
    let (later, l, e4) = >>=-eq-ok (overwrites_from_view h raw) _ e3 in
    let whole : list
        ≡ record { role_id = w.role_id; allow = allow; deny = bit_clear deny allow } ∷ later =
      ground (arith, e4) in
    subst (All Apart) (sym whole) (clear_apart deny allow, read-Apart h raw later l)

held-IsGranted :
    (base : Permission) (list : List Overwrite)
    → All Apart list
    → all_held base list ≡ true
    → All (IsGranted base) list
unfolding all_held Apart
held-IsGranted base [] a h = tt
held-IsGranted base (o ∷ list) a h = (
  record { allow_held = ground (arith, h); deny_held = ground (arith, h); apart = a.0 },
  held-IsGranted base list a.1 (ground (arith, h)),
)

passed : (b : Bool) (c : Code) (m : String) (u : Unit {0}) → require b c m ≡ ok u → b ≡ true
passed true c m u e = refl
passed false c m u e = cc

abbrev settle : Channel → ChannelPatch → Result (Channel × ChannelPatch)
settle current patch = ok (current, patch)

patch-IsGranted :
    (h : Hub) (actor : Session) (o : Option (List WireOverwrite)) (p q : ChannelPatch)
    (list : List Overwrite)
    → patch_overwrites h actor o p ≡ ok q
    → p.overwrites ≡ none
    → q.overwrites ≡ some list
    → (has actor.base manage_roles ≡ true) × All (IsGranted actor.base) list
unfolding patch_overwrites
patch-IsGranted h actor none p q list e n s = ground (arith, e, n, s)
patch-IsGranted h actor (some raw) p q list e n s =
    let (u, may, e1) =
      >>=-eq-ok
        (require (has actor.base manage_roles) forbidden
          "editing channel permissions needs ManageRoles")
        _ e in
    let (read, r, e2) = >>=-eq-ok (overwrites_from_view h raw) _ e1 in
    let (v, held, e3) =
      >>=-eq-ok
        (require (all_held actor.base read) forbidden
          "an overwrite touches a permission you do not hold")
        _ e2 in
    let same : read ≡ list = ground (arith, e3, s) in
    (
      passed _ _ _ u may,
      subst (All (IsGranted actor.base)) same
          (held-IsGranted actor.base read (read-Apart h raw read r) (passed _ _ _ v held)),
    )

parent-overwrites :
    (h : Hub) (actor : Session) (o : Option (Option ℕ)) (c : Channel) (p : ChannelPatch)
    → patch_parent h actor o c ≡ ok p
    → p.overwrites ≡ none
unfolding patch_parent
parent-overwrites h actor none c p e = ground (arith, e)
parent-overwrites h actor (some parent) c p e = ground (arith, e)

-- The overwrites of an update that gets past the checks: whoever sets them manages roles, holds under
-- their own mask what each of them allows and denies, and none of them allows and denies the same
-- permission.
pub check_channel_update-IsGranted :
    (h : Hub) (actor : Session) (raw : Option ChannelUpdateRequest) (before : Channel)
    (p : ChannelPatch) (list : List Overwrite)
    → check_channel_update h actor raw ≡ ok (before, p)
    → p.overwrites ≡ some list
    → (has actor.base manage_roles ≡ true) × All (IsGranted actor.base) list
unfolding check_channel_update
check_channel_update-IsGranted h actor none before p list e s = cc
check_channel_update-IsGranted h actor (some req) before p list e s =
    let (current, f, e1) =
      >>=-eq-ok (require_some (channel h req.channel_id) not_found "no such channel") _ e in
    let (u, allowed, e2) =
      >>=-eq-ok (require_channel_permission h actor (some req.channel_id) manage_channels) _ e1 in
    let (named, n, e3) = >>=-eq-ok (patch_channel_name req.name current) _ e2 in
    let (told, t, e4) = >>=-eq-ok (patch_topic req.topic named) _ e3 in
    let (limited, l, e5) =
      >>=-eq-ok (patch_limit req.user_limit (patch_place req.position told)) _ e4 in
    let (moved, m, e6) = >>=-eq-ok (patch_parent h actor req.parent_id limited) _ e5 in
    let (patch, o, e7) =
      >>=-eq-ok (patch_overwrites h actor req.overwrites moved) (settle current) e6 in
    let same : patch ≡ p = ground (arith, e7) in
    patch-IsGranted h actor req.overwrites moved p list (o ∙ ap ok same)
      (parent-overwrites h actor req.parent_id limited moved m) s
