-- ===== src/Handlers/Plugins.antt =====
-- The handlers of api/handlers/plugins.go and api/handlers/yank.go that list and change plugins. A
-- body that does not bind is refused with 400 before what is modelled here. The checks that start
-- in the background behind a change, webhooks and metrics are left out.
use semrel_registry.Prelude.{
  Bool, false, Option, none, some, List, [], ◌∷◌, not, ◌||◌, if◌then◌else◌,
}
use semrel_registry.Prelude.Int.{ℤ, pos}
use semrel_registry.Text.{Text, trim_space, equal_fold, is_empty}
use semrel_registry.Models.{
  Time, Plugin, PluginPatch, PluginVersion, PluginDeletionRequest, VersionDeletionRequest,
  VersionYankRequest, PluginSubmission, ReviewDecision, ReviewNotification, status_active,
}
use semrel_registry.Naming.{UrlParser}
use semrel_registry.Repository.Interface.{PluginRepository}
use semrel_registry.Service.Lookup.{get_plugin}
use semrel_registry.Service.Listing.{ListPluginsParams, PluginListResult, list_plugins}
use semrel_registry.Service.Publishing.{
  create_plugin, update_plugin, create_version, submit_plugin_with_contact,
}
use semrel_registry.Service.Removal.{delete_plugin_with_request, delete_version_with_request}
use semrel_registry.Service.Review.{review_plugin, yank_version}
use semrel_registry.Handlers.{Handler, serve, stop_if, ◌>>=◌, ◌>>◌}
use semrel_registry.Handlers.Identity.{Context, is_stranger, current_delete_actor, parse_query_int}
use semrel_registry.Handlers.Ownership.{GitHub, lacks_proof}

-- the query of ListPlugins, each value empty where it is not there
pub record ListQuery : Type 0 where
  pub page : Text
  pub limit : Text
  pub category : Text
  pub search : Text
  pub sort : Text
  pub order : Text
  pub namespace : Text
  pub author : Text
  pub status : Text
  pub compatible_with : Text

-- the statuses that ListPlugins restricts the listing to, and the author
unfoldable pub visible_statuses : Context → Text → List Text
visible_statuses c status =
    if c.is_admin
    then (if is_empty (trim_space status) then [] else trim_space status ∷ [])
    else if is_empty c.login
    then status_active ∷ []
    else []

unfoldable pub visible_author : Context → Text → Text
visible_author c author = if c.is_admin || is_empty c.login then trim_space author else c.login

unfoldable pub list_params : Context → ListQuery → ℤ → ℤ → ListPluginsParams
unfolding visible_statuses visible_author
list_params c q page limit = record {
  page = page;
  limit = limit;
  category = trim_space q.category;
  search = trim_space q.search;
  sort = trim_space q.sort;
  sort_dir = trim_space q.order;
  namespace = trim_space q.namespace;
  author = visible_author c q.author;
  statuses = visible_statuses c q.status;
  compatible_with = trim_space q.compatible_with;
}

module _ {S : Type 0} (repo : PluginRepository S) where
  -- ListPlugins
  unfoldable pub answer_list : Context → ListQuery → Handler S PluginListResult
  unfolding parse_query_int serve list_plugins list_params ◌>>=◌
  answer_list c q = do
    page ← parse_query_int q.page (pos 1)
    limit ← parse_query_int q.limit (pos 20)
    serve (list_plugins repo (list_params c q page limit))

module _ {S : Type 0} (urls : UrlParser) (hosts : List Text) (repo : PluginRepository S) where
  -- CreatePlugin
  unfoldable pub answer_create : Context → Plugin → Handler S Plugin
  unfolding serve create_plugin
  answer_create c plugin = serve (
      create_plugin urls hosts repo
        (if c.is_admin || is_empty c.login then plugin else record plugin { author = c.login }))

  abbrev steals_author : Context → Option Text → Bool
  steals_author c none = false
  steals_author c (some author) = not (equal_fold author c.login)

  -- UpdatePlugin; an administrator's plugin is not looked at first
  unfoldable pub answer_update : Context → Text → PluginPatch → Handler S Plugin
  unfolding serve stop_if ◌>>=◌ get_plugin update_plugin
  answer_update c ref patch =
      if c.is_admin then serve (update_plugin urls hosts repo ref patch) else do
        existing ← serve (get_plugin repo ref)
        stop_if (not (equal_fold existing.author c.login)) 403
        stop_if (steals_author c patch.author) 403
        serve (update_plugin urls hosts repo ref patch)

  -- DeletePlugin
  unfoldable pub answer_delete : Context → Text → PluginDeletionRequest → Handler S (Unit {0})
  unfolding serve stop_if ◌>>=◌ get_plugin delete_plugin_with_request current_delete_actor
  answer_delete c ref request =
      if c.is_admin
      then serve (delete_plugin_with_request repo ref request (current_delete_actor c))
      else do
        existing ← serve (get_plugin repo ref)
        stop_if (not (equal_fold existing.author c.login)) 403
        serve (delete_plugin_with_request repo ref request (current_delete_actor c))

  -- CreatePluginVersion
  unfoldable pub answer_create_version :
      Time → Context → Text → PluginVersion → Handler S PluginVersion
  unfolding serve stop_if ◌>>=◌ get_plugin create_version
  answer_create_version now c ref version = do
    plugin ← serve (get_plugin repo ref)
    stop_if (is_stranger c plugin) 403
    serve (create_version urls hosts repo now ref version)

  -- DeletePluginVersion of an :versionId that is an integer
  unfoldable pub answer_delete_version :
      Context → Text → ℤ → VersionDeletionRequest → Handler S (Unit {0})
  unfolding serve stop_if ◌>>=◌ get_plugin delete_version_with_request current_delete_actor
  answer_delete_version c ref version_id request = do
    plugin ← serve (get_plugin repo ref)
    stop_if (is_stranger c plugin) 403
    serve (delete_version_with_request repo ref version_id request (current_delete_actor c))

  -- setVersionYank of a :versionId that is an integer
  unfoldable pub answer_yank :
      Context → Text → ℤ → Bool → VersionYankRequest → Handler S PluginVersion
  unfolding serve stop_if ◌>>=◌ get_plugin yank_version current_delete_actor
  answer_yank c ref version_id yanked request = do
    plugin ← serve (get_plugin repo ref)
    stop_if (is_stranger c plugin) 403
    serve (yank_version repo ref version_id yanked request (current_delete_actor c))

  -- SubmitPlugin
  unfoldable pub answer_submit : GitHub → Context → PluginSubmission → Handler S Plugin
  unfolding serve stop_if ◌>>=◌ submit_plugin_with_contact lacks_proof
  answer_submit gh c raw =
      let plugin =
        if is_empty c.login then raw.plugin else record (raw.plugin) { author = c.login } in
      do
        stop_if (lacks_proof gh c plugin.repository) 403
        serve (submit_plugin_with_contact urls hosts repo (record raw { plugin = plugin }))

  -- ApprovePlugin and RejectPlugin
  unfoldable pub answer_review :
      Context → Text → Text → ReviewDecision → Handler S (Plugin × Option ReviewNotification)
  unfolding serve review_plugin
  answer_review c ref status decision = serve (review_plugin repo ref status decision c.login)
