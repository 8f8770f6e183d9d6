-- ===== src/Sync/Drafts.antt =====
-- Drafts in a pass over the releases of a plugin.
use semrel_registry.Prelude.{
  ◌≡◌, refl, ap, ◌∙◌, Bool, true, false, Option, List, [], ◌∷◌, ◌+◌, suc, not, keep_if, length,
  Bool-cases, inl, inr, arith,
}
use semrel_registry.Text.{Text}
use semrel_registry.Naming.{UrlParser}
use semrel_registry.Models.{Time, Plugin}
use semrel_registry.Result.{Result, ok, err}
use semrel_registry.Repository.Interface.{PluginRepository}
use semrel_registry.Sync.{GhRelease, Outcome, count_release, offer_release, sync_releases}

abbrev pub is_published : GhRelease → Bool
is_published rel = not rel.draft

-- Two passes have created the same number of versions and met the same first error.
abbrev pub Agrees : Outcome → Outcome → Type 0
Agrees o o' = (o.created ≡ o'.created) × (o.first_error ≡ o'.first_error)

count_release-Agrees :
    (r : Result Bool) (o o' : Outcome)
    → Agrees o o'
    → Agrees (count_release r o) (count_release r o')
count_release-Agrees (ok true) o o' (c, e) = (ap suc c, e)
count_release-Agrees (ok false) o o' h = h
count_release-Agrees (err x) o o' (c, e) = (c, refl)

count_release-sum :
    (r : Result Bool) (o : Outcome)
    → (count_release r o).created + (count_release r o).skipped ≡ suc (o.created + o.skipped)
count_release-sum (ok true) o = omega arith
count_release-sum (ok false) o = omega arith
count_release-sum (err x) o = omega arith

module _ {S : Type 0} (urls : UrlParser) (hosts : List Text) (repo : PluginRepository S)
    (parse_time : Text → Option Time) (now : Time) (p : Plugin) where
  offer_release-draft :
      (rel : GhRelease) (s : S)
      → rel.draft ≡ true
      → offer_release urls hosts repo parse_time now p rel s ≡ (ok false, s)
  unfolding offer_release
  offer_release-draft rel s e = rw e refl

  -- A pass over releases leaves the store that a pass over those of them that are no drafts leaves,
  -- creates as many versions and meets the same first error, whatever fails on the way; and each
  -- release, also one that fails, is counted once, as created or as skipped.
  pub sync_releases-keep_if :
      (rels : List GhRelease) (s : S)
      → ((sync_releases urls hosts repo parse_time now p rels s).1
          ≡ (sync_releases urls hosts repo parse_time now p (keep_if is_published rels) s).1)
        × Agrees
            (sync_releases urls hosts repo parse_time now p rels s).0
            (sync_releases urls hosts repo parse_time now p (keep_if is_published rels) s).0
        × ((sync_releases urls hosts repo parse_time now p rels s).0.created
              + (sync_releases urls hosts repo parse_time now p rels s).0.skipped
            ≡ length rels)
  unfolding sync_releases
  sync_releases-keep_if [] s = (refl, (refl, refl), refl)
  sync_releases-keep_if (rel ∷ rels) s = elim (Bool-cases rel.draft) [
    | inl e ↦
        let (store, agree, sum) = sync_releases-keep_if rels s in
        rw (offer_release-draft rel s e) (
          rw (ap not e) (
            store,
            agree,
            count_release-sum (ok false) (sync_releases urls hosts repo parse_time now p rels s).0
                ∙ ap suc sum,
          ))
    | inr e ↦
        let r = offer_release urls hosts repo parse_time now p rel s in
        let (store, agree, sum) = sync_releases-keep_if rels r.1 in
        rw (ap not e)
          (store, count_release-Agrees r.0 _ _ agree, count_release-sum r.0 _ ∙ ap suc sum)
  ]
