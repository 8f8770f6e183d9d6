-- ===== src/Handlers/Strangers.antt =====
-- The handlers of api/handlers/plugins.go and api/handlers/yank.go that change a plugin, asked by a
-- caller who is neither an administrator nor the plugin's author.
use semrel_registry.Prelude.{◌≡◌, refl, Bool, true, false, List, not}
use semrel_registry.Prelude.Int.{ℤ}
use semrel_registry.Text.{Text, equal_fold}
use semrel_registry.Models.{
  Time, Plugin, PluginPatch, PluginVersion, PluginDeletionRequest, VersionDeletionRequest,
  VersionYankRequest,
}
use semrel_registry.Naming.{UrlParser}
use semrel_registry.Result.{Result, ok, err}
use semrel_registry.Repository.Interface.{PluginRepository}
use semrel_registry.Service.Lookup.{get_plugin}
use semrel_registry.Handlers.{
  Reply, refuse, proceed, status_of, Handler, serve, stop_if, go_on, or_refuse, ◌>>=◌, ◌>>◌,
}
use semrel_registry.Handlers.Identity.{Context, is_stranger}
use semrel_registry.Handlers.Plugins.{
  answer_update, answer_delete, answer_create_version, answer_delete_version, answer_yank,
}

-- A request that changes the plugin that it names.
pub data ChangeRequest : Type 0 where
  updates : PluginPatch → ChangeRequest
  deletes : PluginDeletionRequest → ChangeRequest
  adds_version : PluginVersion → ChangeRequest
  deletes_version : ℤ → VersionDeletionRequest → ChangeRequest
  yanks : ℤ → Bool → VersionYankRequest → ChangeRequest

module _ {S : Type 0} where
  -- the answer without its body
  abbrev without_body : {A : Type 0} → Reply A × S → Reply (Unit {0}) × S
  without_body (proceed a, s) = (proceed tt, s)
  without_body (refuse status, s) = (refuse status, s)

  module _ (urls : UrlParser) (hosts : List Text) (repo : PluginRepository S) (now : Time) where
    unfoldable pub answer_change : ChangeRequest → Context → Text → Handler S (Unit {0})
    answer_change (updates patch) c ref s =
        without_body (answer_update urls hosts repo c ref patch s)
    answer_change (deletes request) c ref s =
        without_body (answer_delete urls hosts repo c ref request s)
    answer_change (adds_version v) c ref s =
        without_body (answer_create_version urls hosts repo now c ref v s)
    answer_change (deletes_version id request) c ref s =
        without_body (answer_delete_version urls hosts repo c ref id request s)
    answer_change (yanks id yanked request) c ref s =
        without_body (answer_yank urls hosts repo c ref id yanked request s)

    -- what reading the plugin leads to, for a caller who may not change it
    abbrev pub refused_after : Result Plugin × S → Reply (Unit {0}) × S
    refused_after (ok p, s) = (refuse 403, s)
    refused_after (err e, s) = (refuse (status_of e), s)

    abbrev pub IsForeign : Context → Result Plugin → Type 0
    IsForeign c (ok p) = equal_fold p.author c.login ≡ false
    IsForeign c (err e) = Unit

    -- A handler that reads the plugin and then tests it.
    guarded :
        {A : Type 0} (c : Context) (test : Plugin → Bool) (r : Result Plugin × S)
        (next : Plugin → Handler S A)
        → ((p : Plugin) → equal_fold p.author c.login ≡ false → test p ≡ true)
        → IsForeign c r.0
        → without_body (go_on (or_refuse r.0) (λ p. do stop_if (test p) 403; next p) r.1)
          ≡ refused_after r
    unfolding ◌>>=◌ stop_if
    guarded c test (ok p, s) next stops foreign = rw (stops p foreign) refl
    guarded c test (err e, s) next stops foreign = refl

    is_stranger-true :
        (c : Context) (p : Plugin)
        → c.is_admin ≡ false
        → equal_fold p.author c.login ≡ false
        → is_stranger c p ≡ true
    is_stranger-true c p user foreign = rw (user, foreign) refl

    not-false : (b : Bool) → b ≡ false → not b ≡ true
    not-false b e = rw e refl

    -- A caller who is no administrator and not the author of the plugin that a request names cannot
    -- update or delete it, nor add, delete, yank or unyank a version: the state is left as the mere
    -- read of the plugin leaves it, and the answer is 403, or the read's own error.
    pub answer_change-refused :
        (q : ChangeRequest) (c : Context) (ref : Text) (s : S)
        → c.is_admin ≡ false
        → IsForeign c (get_plugin repo ref s).0
        → answer_change q c ref s ≡ refused_after (get_plugin repo ref s)
    unfolding answer_change answer_update answer_delete answer_create_version answer_delete_version
        answer_yank ◌>>=◌ serve
    answer_change-refused (updates patch) c ref s user foreign =
        rw user (guarded c _ (get_plugin repo ref s) _ (λ p e. not-false _ e) foreign)
    answer_change-refused (deletes request) c ref s user foreign =
        rw user (guarded c _ (get_plugin repo ref s) _ (λ p e. not-false _ e) foreign)
    answer_change-refused (adds_version v) c ref s user foreign =
        guarded c (is_stranger c) (get_plugin repo ref s) _ (λ p e. is_stranger-true c p user e)
          foreign
    answer_change-refused (deletes_version id request) c ref s user foreign =
        guarded c (is_stranger c) (get_plugin repo ref s) _ (λ p e. is_stranger-true c p user e)
          foreign
    answer_change-refused (yanks id yanked request) c ref s user foreign =
        guarded c (is_stranger c) (get_plugin repo ref s) _ (λ p e. is_stranger-true c p user e)
          foreign
