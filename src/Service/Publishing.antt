-- ===== src/Service/Publishing.antt =====
-- The operations of PluginService that publish: CreatePlugin, SubmitPlugin, UpdatePlugin,
-- CreateVersion, and SubmitPluginWithContact of submission.go.
pub mod Outcome
use semrel_registry.Prelude.{Bool, true, some, List, [], ◌∷◌, ◌||◌, if◌then◌else◌, is_some}
use semrel_registry.Prelude.Int.{ℤ}
use semrel_registry.Text.{Text, is_empty}
use semrel_registry.Models.{
  Time, Plugin, PluginVersion, PluginPatch, PluginSubmission, status_active, status_pending,
  patch_is_empty,
}
use semrel_registry.Result.{ok, Exec, pure, lift, validation, ◌>>=◌, ◌>>◌, reject_if}
use semrel_registry.Naming.{UrlParser}
use semrel_registry.Repository.Interface.{PluginRepository}
use semrel_registry.Service.Normal.{
  normalize_plugin, normalize_version, normalize_patch, normalize_first_party, apply_patch,
}
use semrel_registry.Service.Validation.{
  validate_plugin, validate_version, validate_patch, validate_plugin_ref, validate_notify_email,
}
use semrel_registry.Service.Lookup.{lookup_plugin, or_missing, version_with}

-- what CreatePlugin and SubmitPlugin do to the plugin before they validate it
unfoldable pub prepared : UrlParser → Plugin → Plugin
unfolding normalize_plugin normalize_first_party
prepared urls p = (normalize_first_party urls (normalize_plugin p)).0

abbrev with_status : Plugin → Plugin
with_status p = if is_empty p.status then record p { status = status_active } else p

-- the condition under which UpdatePlugin validates the patched plugin
abbrev is_checked : PluginPatch → Bool → Bool
is_checked patch first_party =
    first_party
    || is_some patch.namespace
    || is_some patch.name
    || is_some patch.aliases
    || is_some patch.category
    || is_some patch.repository

abbrev released : Time → PluginVersion → PluginVersion
released now v = if is_some v.release_date then v else record v { release_date = some now }

-- an action whose error is only logged
unfoldable pub attempt : {S : Type 0} → Exec S (Unit {0}) → Exec S (Unit {0})
attempt m s = (ok tt, (m s).1)

module _ {S : Type 0} (urls : UrlParser) (hosts : List Text) (repo : PluginRepository S) where
  -- the loop of CreatePlugin over the versions
  unfoldable pub add_versions : ℤ → List PluginVersion → Exec S (Unit {0})
  add_versions id [] = pure tt
  add_versions id (v ∷ vs) = do repo.add_version (record v { plugin_id = id }); add_versions id vs

  -- CreatePlugin
  unfoldable pub create_plugin : Plugin → Exec S Plugin
  unfolding add_versions prepared
  create_plugin plugin = do
    let p = with_status (prepared urls plugin)
    lift (validate_plugin urls hosts true p)
    id ← repo.create p
    add_versions id p.versions
    repo.get_by_id id

  -- SubmitPlugin
  unfoldable pub submit_plugin : Plugin → Exec S Plugin
  unfolding prepared
  submit_plugin plugin = do
    let p = record (prepared urls plugin) { status = status_pending }
    lift (validate_plugin urls hosts true p)
    id ← repo.create p
    repo.get_by_id id

  -- its last step: the address is stored if there is one, and a failure to store it is only logged
  unfoldable pub store_contact : ℤ → Text → Exec S (Unit {0})
  unfolding attempt
  store_contact id address =
      if is_empty address then pure tt else attempt (repo.set_notify_email id address)

  -- SubmitPluginWithContact
  unfoldable pub submit_plugin_with_contact : PluginSubmission → Exec S Plugin
  unfolding submit_plugin store_contact
  submit_plugin_with_contact submission = do
    lift (validate_notify_email submission.notify_email)
    created ← submit_plugin submission.plugin
    store_contact created.id submission.notify_email
    pure created

  -- UpdatePlugin
  unfoldable pub update_plugin : Text → PluginPatch → Exec S Plugin
  unfolding apply_patch normalize_first_party
  update_plugin ref raw = do
    lift (validate_plugin_ref ref)
    let patch = normalize_patch raw
    reject_if (patch_is_empty patch) (validation "body")
    lift (validate_patch urls hosts patch)
    p ← lookup_plugin repo ref
    let patched = normalize_first_party urls (apply_patch p patch)
    lift (if is_checked patch patched.1 then validate_plugin urls hosts true patched.0 else ok tt)
    repo.update patched.0
    repo.get_by_id p.id

  -- CreateVersion
  unfoldable pub create_version : Time → Text → PluginVersion → Exec S PluginVersion
  unfolding version_with
  create_version now ref raw = do
    lift (validate_plugin_ref ref)
    let version = normalize_version raw
    lift (validate_version urls hosts version)
    p ← lookup_plugin repo ref
    id ← repo.add_version (record (released now version) { plugin_id = p.id })
    versions ← repo.get_versions p.id
    or_missing repo (version_with repo id versions)
