-- ===== src/Service/Publishing/Outcome.antt =====
-- What SubmitPlugin and CreatePlugin give on the file-backed repository.
use semrel_registry.Prelude.{
  ◌≡◌, refl, ◌≢◌, sym, ◌∙◌, true, Option, none, some, List, ◌∷◌, map, any, Bool-cases, inl, inr,
  if◌then◌else◌, ap,
}
use mathlib.Core.Path.{subst}
use semrel_registry.Prelude.Int.{ℤ}
use semrel_registry.Text.{Text, text_eq, is_empty}
use semrel_registry.Text.Equality.{text_eq_refl}
use semrel_registry.Models.{Time, Plugin, PluginVersion, status_pending, status_active}
use semrel_registry.Result.{ok, duplicate_plugin}
use semrel_registry.Result.Triple.{Triple, Triple-bind, Triple-lift, Triple-reject_if}
use semrel_registry.Naming.{UrlParser, FirstPartyPlugin, first_party_by_repository_url}
use semrel_registry.Sort.{any-sort_slice}
use semrel_registry.Repository.Disk.{Disk}
use semrel_registry.Repository.Versions.{sort_plugin_versions, refresh_latest}
use semrel_registry.Repository.Disk.{to_json}
use semrel_registry.Repository.Reads.{load_live, get_by_id}
use semrel_registry.Repository.Writes.{add_version}
use semrel_registry.Repository.Interface.{file_repository}
use semrel_registry.Repository.Storing.{
  result_of, Anything, Stores, IsSteady, Triple-create_stored, Triple-load_stored,
}
use semrel_registry.Service.Normal.{
  as_first_party, normalize_first_party, normalize_plugin, normalize_version,
}
use semrel_registry.Service.Validation.{validate_plugin}
use semrel_registry.Service.Publishing.{prepared, submit_plugin, create_plugin, add_versions}

abbrev HasStatus : Text → Plugin → Type 0
HasStatus status p = p.status ≡ status

HasStatus-IsSteady : (status : Text) → IsSteady (HasStatus status)
unfolding to_json refresh_latest
HasStatus-IsSteady status = record { written = λ p h. h; read = λ p h. h }

module _ (urls : UrlParser) (hosts : List Text) (now : Time) where
  -- A plugin that SubmitPlugin gives back on the file-backed repository, whatever its argument and
  -- whatever accesses to files fail, waits for a review.
  pub submit_plugin-pending :
      (plugin p : Plugin) (s : Disk)
      → (submit_plugin urls hosts (file_repository now) plugin s).0 ≡ ok p
      → p.status ≡ status_pending
  unfolding submit_plugin get_by_id
  submit_plugin-pending plugin p s h = result_of (HasStatus status_pending) _ _ p (run.at s tt) h
    where
      run :
          Triple Anything Anything
            (submit_plugin urls hosts (file_repository now) plugin)
            (λ q t. HasStatus status_pending q)
      run =
          Triple-bind Anything _ (λ _. Anything) _ _
            (Triple-lift (validate_plugin urls hosts true _) Anything (λ _. Anything) (λ s a. tt)
              (λ u e s a. tt))
            λ _.
              Triple-bind Anything _ (Stores (HasStatus status_pending)) _ _
                (Triple-create_stored (HasStatus status_pending) (HasStatus-IsSteady _) now _
                  (λ id. refl))
                λ id. Triple-load_stored (HasStatus status_pending) (HasStatus-IsSteady _) id

-- The plugin has a version with this text.
abbrev HasVersion : Text → Plugin → Type 0
HasVersion t p = any (λ v. text_eq v.version t) p.versions ≡ true

HasVersion-IsSteady : (t : Text) → IsSteady (HasVersion t)
unfolding to_json refresh_latest sort_plugin_versions
HasVersion-IsSteady t = record {
  written = λ p h. h;
  read = λ p h. any-sort_slice _ _ p.versions ∙ h;
}

as_first_party-versions :
    (o : Option FirstPartyPlugin) (p : Plugin) → (as_first_party o p).0.versions ≡ p.versions
as_first_party-versions none p = refl
as_first_party-versions (some c) p = refl

prepared-versions :
    (urls : UrlParser) (plugin : Plugin)
    → (prepared urls plugin).versions ≡ map normalize_version plugin.versions
unfolding prepared normalize_first_party normalize_plugin
prepared-versions urls plugin =
    as_first_party-versions
      (first_party_by_repository_url urls (normalize_plugin plugin).repository)
      (normalize_plugin plugin)

-- A version that the plugin has is not added again.
add_version-again :
    (now : Time) (v : PluginVersion)
    → Triple Anything (Stores (HasVersion v.version) v.plugin_id) (add_version now v) (λ _ _. ⊥)
unfolding add_version
add_version-again now v =
    Triple-bind _ (load_live v.plugin_id) (λ p s. HasVersion v.version p) _ _
      (Triple-load_stored (HasVersion v.version) (HasVersion-IsSteady v.version) v.plugin_id)
      λ p.
        Triple-bind (λ s. HasVersion v.version p) _ (λ _ _. ⊥) _ _
          (Triple-reject_if _ duplicate_plugin _ (λ _. ⊥) (λ s h. tt) (λ s h e. cc))
          λ _. record { at = λ s h. absurd h }

with_status-versions :
    (p : Plugin)
    → (if is_empty p.status then record p { status = status_active } else p).versions ≡ p.versions
with_status-versions p = elim (Bool-cases (is_empty p.status)) [
  | inl e ↦ rw e refl
  | inr e ↦ rw e refl
]

module _ (urls : UrlParser) (hosts : List Text) (now : Time) where
  -- On the file-backed repository CreatePlugin never succeeds for a plugin that comes with a version.
  pub create_plugin-versions :
      (plugin p : Plugin) (v : PluginVersion) (vs : List PluginVersion) (s : Disk)
      → plugin.versions ≡ v ∷ vs
      → (create_plugin urls hosts (file_repository now) plugin s).0 ≢ ok p
  unfolding create_plugin
  create_plugin-versions plugin p v vs s given h = result_of (λ _. ⊥) _ _ p (run.at s tt) h
    where
      q : Plugin
      q =
          if is_empty (prepared urls plugin).status
          then record (prepared urls plugin) { status = status_active }
          else prepared urls plugin

      first : PluginVersion
      first = normalize_version v

      versions_q : q.versions ≡ first ∷ map normalize_version vs
      versions_q =
          with_status-versions (prepared urls plugin)
          ∙ (prepared-versions urls plugin ∙ ap (map normalize_version) given)

      has : any (λ w. text_eq w.version first.version) q.versions ≡ true
      has = rw versions_q (rw (text_eq_refl first.version) refl)

      adds :
          (id : ℤ) (ws : List PluginVersion)
          → ws ≡ first ∷ map normalize_version vs
          → Triple Anything
              (Stores (HasVersion first.version) id)
              (add_versions urls hosts (file_repository now) id ws)
              (λ _ _. ⊥)
      adds id ws e =
          subst
            (λ us.
              Triple Anything (Stores (HasVersion first.version) id)
                (add_versions urls hosts (file_repository now) id us) (λ _ _. ⊥))
            (sym e)
            (unfold add_versions in
              Triple-bind _ _ (λ _ _. ⊥) _ _
                (add_version-again now (record first { plugin_id = id }))
                λ _. record { at = λ s h. absurd h })

      run :
          Triple Anything Anything
            (create_plugin urls hosts (file_repository now) plugin)
            (λ _ _. ⊥)
      run =
          Triple-bind Anything _ (λ _. Anything) _ _
            (Triple-lift (validate_plugin urls hosts true q) Anything (λ _. Anything) (λ s a. tt)
              (λ u e s a. tt))
            λ _.
              Triple-bind Anything _ (Stores (HasVersion first.version)) _ _
                (Triple-create_stored (HasVersion first.version) (HasVersion-IsSteady _) now q
                  (λ id. has))
                λ id.
                  Triple-bind _ _ (λ _ _. ⊥) _ _ (adds id q.versions versions_q)
                    λ _. record { at = λ s h. absurd h }
