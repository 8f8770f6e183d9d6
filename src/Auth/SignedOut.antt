-- ===== src/Auth/SignedOut.antt =====
-- Sessions that were ended, through later calls of the revocation list of api/handlers/session.go.
use semrel_registry.Prelude.{
  ◌≡◌, ◌≤◌, ◌+◌, ◌*◌, refl, Bool, true, false, Option, none, some, List, [], ◌∷◌, All, arith, sym,
  ap, ◌∙◌, ltb→lt, if◌then◌else◌, ltb, keep_if, not,
}
use mathlib.Core.Path.{subst}
use mathlib.Core.Bool.{false≢true}
use mathlib.Core.Option.{some-injective}
use semrel_registry.Text.{Text, text_eq, is_empty}
use semrel_registry.Text.Equality.{text_eq_sound, text_eq_refl, text_eq_comm}
use semrel_registry.Models.{Time}
use semrel_registry.Auth.{second, Claims, AuthHandler, JwtParser}
use semrel_registry.Auth.Sessions.{validate_jwt, validate_claims, logout}
use semrel_registry.Auth.Revocation.{
  RevocationList, expiry_of, delete_entry, sweep, revoke, is_revoked, is_revoked_by,
}

-- A call of the list at an instant.
pub data RevocationCall : Type 0 where
  revokes : Time → Text → Time → RevocationCall
  asks : Time → Text → RevocationCall

unfoldable pub after_lookup : RevocationCall → RevocationList → RevocationList
after_lookup (revokes now jti expires_at) r = revoke now jti expires_at r
after_lookup (asks now jti) r = (is_revoked now jti r).1

unfoldable pub after_lookups : List RevocationCall → RevocationList → RevocationList
unfolding after_lookup
after_lookups [] r = r
after_lookups (c ∷ cs) r = after_lookups cs (after_lookup c r)

-- The call comes no later than `expiry`, and does not give the session `jti` an earlier end.
abbrev pub IsWithin : Text → Time → RevocationCall → Type 0
IsWithin jti expiry (revokes now j expires_at) = (now ≤ expiry) × (j ≡ jti → expiry ≤ expires_at)
IsWithin jti expiry (asks now j) = now ≤ expiry

-- The list holds the session until `expiry` at least.
abbrev Held : Text → Time → List (Text × Time) → Type 0
Held jti expiry m = (t : Time) × (expiry_of jti m ≡ some t) × (expiry ≤ t)

expiry_of-keep_if :
    (p : Text × Time → Bool) (jti : Text) (expiry : Time) (m : List (Text × Time))
    → ((t : Time) → expiry ≤ t → p (jti, t) ≡ true)
    → Held jti expiry m
    → Held jti expiry (keep_if p m)
unfolding expiry_of
expiry_of-keep_if p jti expiry [] keeps (t, e, l) = cc
expiry_of-keep_if p jti expiry ((j, u) ∷ m) keeps h =
    go (text_eq j jti) refl (p (j, u)) refl h (expiry_of-keep_if p jti expiry m keeps)
  where
    go :
        (here : Bool)
        → text_eq j jti ≡ here
        → (kept : Bool) → p (j, u) ≡ kept
        → (t : Time) × ((if here then some u else expiry_of jti m) ≡ some t) × (expiry ≤ t)
        → (Held jti expiry m → Held jti expiry (keep_if p m))
        → Held jti expiry (if kept then (j, u) ∷ keep_if p m else keep_if p m)
    go true e true k (t, same, l) rest = rw e (t, same, l)
    go false e true k h rest = rw e (rest h)
    go true e false k (t, same, l) rest = absurd (
        false≢true (
          sym k
          ∙ subst (λ i. p (i, u) ≡ true) (sym (text_eq_sound j jti e))
              (keeps u (subst (λ x. expiry ≤ x) (sym (some-injective _ _ same)) l))))
    go false e false k h rest = rest h

-- No time is below an earlier one.
not_before : (now t expiry : Time) → now ≤ expiry → expiry ≤ t → not (ltb t now) ≡ true
not_before now t expiry h k = ground arith

sweep-Held :
    (now : Time) (jti : Text) (expiry : Time) (r : RevocationList)
    → now ≤ expiry
    → Held jti expiry r.revoked
    → Held jti expiry (sweep now r).revoked
unfolding sweep
sweep-Held now jti expiry r h k = go (ltb now (r.last + 60 * second))
  where
    go :
        (b : Bool)
        → Held jti expiry
            (if b then r else record {
              revoked = keep_if (λ e. not (ltb e.1 now)) r.revoked;
              last = now;
            }).revoked
    go true = k
    go false =
        expiry_of-keep_if (λ e. not (ltb e.1 now)) jti expiry r.revoked
          (λ t l. not_before now t expiry h l) k

delete_entry-Held :
    (j jti : Text) (expiry : Time) (m : List (Text × Time))
    → text_eq jti j ≡ false
    → Held jti expiry m
    → Held jti expiry (delete_entry j m)
unfolding delete_entry
delete_entry-Held j jti expiry m other h =
    expiry_of-keep_if (λ e. not (text_eq e.0 j)) jti expiry m (λ t l. rw other refl) h

-- A session that is revoked is held from then on.
put-Held :
    (j jti : Text) (expires_at expiry : Time) (m : List (Text × Time))
    → (j ≡ jti → expiry ≤ expires_at)
    → Held jti expiry m
    → Held jti expiry ((j, expires_at) ∷ delete_entry j m)
unfolding expiry_of
put-Held j jti expires_at expiry m later h = go (text_eq j jti) refl
  where
    go : (here : Bool) → text_eq j jti ≡ here → Held jti expiry ((j, expires_at) ∷ delete_entry j m)
    go true e = rw e (expires_at, refl, later (text_eq_sound j jti e))
    go false e = rw e (delete_entry-Held j jti expiry m (text_eq_comm jti j ∙ e) h)

is_revoked_by-Held :
    (now : Time) (j jti : Text) (expiry t : Time) (r : RevocationList)
    → now ≤ expiry
    → expiry_of j r.revoked ≡ some t
    → Held jti expiry r.revoked
    → Held jti expiry (is_revoked_by now j (some t) r).1.revoked
unfolding is_revoked_by
is_revoked_by-Held now j jti expiry t r h e (u, found, l) = go (ltb t now) refl (text_eq jti j) refl
  where
    go :
        (late : Bool)
        → ltb t now ≡ late
        → (same : Bool) → text_eq jti j ≡ same
        → Held jti expiry
            (if◌then◌else◌ {A = Bool × RevocationList} late
              (false, record r { revoked = delete_entry j r.revoked })
              (true, r)).1.revoked
    go false _ same _ = (u, found, l)
    go true late false other = delete_entry-Held j jti expiry r.revoked other (u, found, l)
    go true late true same =
        let one : u ≡ t =
          some-injective u t
            (sym found ∙ ap (λ i. expiry_of i r.revoked) (text_eq_sound jti j same) ∙ e) in
        absurd (omega (arith, ltb→lt t now late, h, l, one))

is_revoked-Held :
    (now : Time) (j jti : Text) (expiry : Time) (r : RevocationList)
    → now ≤ expiry
    → Held jti expiry r.revoked
    → Held jti expiry (is_revoked now j r).1.revoked
unfolding is_revoked is_revoked_by
is_revoked-Held now j jti expiry r h k = go (is_empty j) (expiry_of j r.revoked) refl
  where
    go :
        (b : Bool) (o : Option Time)
        → expiry_of j r.revoked ≡ o
        → Held jti expiry
            (if◌then◌else◌ {A = Bool × RevocationList} b
              (false, r)
              (is_revoked_by now j o r)).1.revoked
    go true o e = k
    go false none e = k
    go false (some t) e = is_revoked_by-Held now j jti expiry t r h e k

after_lookup-Held :
    (jti : Text) (expiry : Time) (c : RevocationCall) (r : RevocationList)
    → IsWithin jti expiry c
    → Held jti expiry r.revoked
    → Held jti expiry (after_lookup c r).revoked
unfolding after_lookup revoke
after_lookup-Held jti expiry (asks now j) r h k = is_revoked-Held now j jti expiry r h k
after_lookup-Held jti expiry (revokes now j expires_at) r (h, later) k = go (is_empty j)
  where
    go :
        (b : Bool)
        → Held jti expiry
            (if b
              then r
              else sweep now
                  (record r { revoked = (j, expires_at) ∷ delete_entry j r.revoked })).revoked
    go true = k
    go false = sweep-Held now jti expiry _ h (put-Held j jti expires_at expiry r.revoked later k)

after_lookups-Held :
    (jti : Text) (expiry : Time) (cs : List RevocationCall) (r : RevocationList)
    → All (IsWithin jti expiry) cs
    → Held jti expiry r.revoked
    → Held jti expiry (after_lookups cs r).revoked
unfolding after_lookups
after_lookups-Held jti expiry [] r h k = k
after_lookups-Held jti expiry (c ∷ cs) r (h, hs) k =
    after_lookups-Held jti expiry cs (after_lookup c r) hs (after_lookup-Held jti expiry c r h k)

Held-is_revoked :
    (now : Time) (jti : Text) (expiry : Time) (r : RevocationList)
    → is_empty jti ≡ false
    → now ≤ expiry
    → Held jti expiry r.revoked
    → (is_revoked now jti r).0 ≡ true
unfolding is_revoked is_revoked_by
Held-is_revoked now jti expiry r some_id h (t, e, l) = rw (some_id, e, not_late) refl
  where
    not_late : ltb t now ≡ false
    not_late = ground (arith, h, l)

logout-Held :
    (h : AuthHandler) (now expiry : Time) (c : Claims) (r : RevocationList)
    → is_empty c.id ≡ false
    → c.expires_at ≡ some expiry
    → now ≤ expiry
    → Held c.id expiry (logout h now (some c) r).revoked
unfolding logout revoke expiry_of
logout-Held h now expiry c r some_id expires in_time =
    rw (some_id, expires)
      (sweep-Held now c.id expiry _ in_time (rw (text_eq_refl c.id) (expiry, refl, omega arith)))

-- After a sign-out of a session with a number, ValidateJWT refuses every token of that session up to
-- the expiry of the token that was signed out, whatever sessions are ended or asked for in between,
-- if none of this happens later than that expiry and the session is not ended again with an earlier one.
pub validate_jwt-signed_out :
    (parse : JwtParser) (h : AuthHandler) (now later : Time) (c c' : Claims) (token : Text)
    (expiry : Time) (cs : List RevocationCall) (r : RevocationList)
    → is_empty c.id ≡ false
    → c.expires_at ≡ some expiry
    → now ≤ expiry
    → later ≤ expiry
    → All (IsWithin c.id expiry) cs
    → parse h.jwt_secret later token ≡ some c'
    → c'.id ≡ c.id
    → (validate_jwt parse h later token (after_lookups cs (logout h now (some c) r))).0 ≡ none
unfolding validate_jwt validate_claims
validate_jwt-signed_out parse h now later c c' token expiry cs r some_id expires in_time soon within
      parsed same =
    let held =
      after_lookups-Held c.id expiry cs (logout h now (some c) r) within
        (logout-Held h now expiry c r some_id expires in_time) in
    let refused =
      Held-is_revoked later c.id expiry (after_lookups cs (logout h now (some c) r)) some_id soon
        held in
    rw (parsed, same, refused) refl
