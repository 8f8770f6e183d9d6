-- ===== src/Webhooks/Updates.antt =====
-- The methods of api/repository/webhook_file_repo.go that write, as calls, and each as a change of
-- the file's content that is saved as a whole or not at all.
use semrel_registry.Prelude.{
  ◌≡◌, refl, Bool, true, false, Option, some, List, [], ◌∷◌, ◌⊎◌, inl, inr,
}
use semrel_registry.Prelude.Int.{ℤ}
use semrel_registry.Text.{Text}
use semrel_registry.Models.{Time}
use semrel_registry.Result.{Result, ok, err, Exec, lift, ◌>>=◌}
use semrel_registry.Webhooks.{
  WebhookDisk, WebhookFile, Subscription, load_webhooks, save_webhooks, stored_file, or_first_file,
  add_subscription, remove_first, record_first, create_webhook, delete_webhook, record_delivery,
}

-- the content of the file, as load gives it
abbrev pub content : WebhookDisk → WebhookFile
content s = or_first_file s.file

pub data WebhookCall : Type 0 where
  creates : Subscription → WebhookCall
  deletes : ℤ → Text → Bool → WebhookCall
  delivers : Time → ℤ → ℤ → Bool → WebhookCall

-- The state that a call leaves, whether it succeeds or fails.
unfoldable pub after_call : WebhookCall → WebhookDisk → WebhookDisk
after_call (creates sub) s = (create_webhook sub s).1
after_call (deletes id owner is_admin) s = (delete_webhook id owner is_admin s).1
after_call (delivers now id status_code success) s =
    (record_delivery now id status_code success s).1

unfoldable pub after_calls : List WebhookCall → WebhookDisk → WebhookDisk
unfolding after_call
after_calls [] s = s
after_calls (c ∷ cs) s = after_calls cs (after_call c s)

abbrev pub with_subscriptions : WebhookFile → Result (List Subscription) → Result WebhookFile
with_subscriptions f (ok ss) = ok (record f { subscriptions = ss })
with_subscriptions f (err e) = err e

-- The content that a call writes, or the error that it ends with before.
unfoldable pub changed : WebhookCall → WebhookFile → Result WebhookFile
unfolding add_subscription remove_first record_first
changed (creates sub) f = ok (add_subscription sub f)
changed (deletes id owner is_admin) f =
    with_subscriptions f (remove_first id owner is_admin f.subscriptions)
changed (delivers now id status_code success) f =
    with_subscriptions f (record_first now id status_code success f.subscriptions)

-- The file after a change that is saved without a fault.
abbrev pub saved : Option WebhookFile → Result WebhookFile → Option WebhookFile
saved file (ok f) = some (stored_file f)
saved file (err e) = file

-- A disk without faults.
abbrev pub sound_disk : Option WebhookFile → WebhookDisk
sound_disk file = record { file = file; faults = [] }

-- What deleting and recording do behind the read of the file.
abbrev write_back : WebhookFile → Result (List Subscription) → Exec WebhookDisk (Unit {0})
write_back f r = do rest ← lift r; save_webhooks (record f { subscriptions = rest })

write_back-sound_disk :
    (f : WebhookFile) (r : Result (List Subscription)) (file : Option WebhookFile)
    → (write_back f r (sound_disk file)).1 ≡ sound_disk (saved file (with_subscriptions f r))
unfolding ◌>>=◌ save_webhooks
write_back-sound_disk f (ok ss) file = refl
write_back-sound_disk f (err e) file = refl

pub after_call-sound_disk :
    (c : WebhookCall) (file : Option WebhookFile)
    → after_call c (sound_disk file) ≡ sound_disk (saved file (changed c (or_first_file file)))
unfolding after_call create_webhook delete_webhook record_delivery load_webhooks save_webhooks ◌>>=◌
    changed
after_call-sound_disk (creates sub) file = refl
after_call-sound_disk (deletes id owner is_admin) file =
    write_back-sound_disk (or_first_file file) _ file
after_call-sound_disk (delivers now id status_code success) file =
    write_back-sound_disk (or_first_file file) _ file

abbrev UnchangedOr : WebhookDisk → Option WebhookFile → Option WebhookFile → Type 0
UnchangedOr s old new = (s.file ≡ old) ⊎ (s.file ≡ new)

write_back-cases :
    (f : WebhookFile) (r : Result (List Subscription)) (file : Option WebhookFile) (fs : List Bool)
    → UnchangedOr
        (write_back f r (record { file = file; faults = fs })).1
        file
        (saved file (with_subscriptions f r))
unfolding ◌>>=◌ save_webhooks
write_back-cases f (err e) file fs = inl refl
write_back-cases f (ok ss) file [] = inr refl
write_back-cases f (ok ss) file (true ∷ fs) = inl refl
write_back-cases f (ok ss) file (false ∷ fs) = inr refl

create-cases :
    (sub : Subscription) (file : Option WebhookFile) (fs : List Bool)
    → UnchangedOr
        (create_webhook sub (record { file = file; faults = fs })).1
        file
        (saved file (changed (creates sub) (or_first_file file)))
unfolding create_webhook load_webhooks save_webhooks ◌>>=◌ changed
create-cases sub file [] = inr refl
create-cases sub file (true ∷ fs) = inl refl
create-cases sub file (false ∷ []) = inr refl
create-cases sub file (false ∷ true ∷ fs) = inl refl
create-cases sub file (false ∷ false ∷ fs) = inr refl

update-cases :
    (r : WebhookFile → Result (List Subscription)) (file : Option WebhookFile) (fs : List Bool)
    → UnchangedOr
        ((load_webhooks >>= λ f. write_back f (r f)) (record { file = file; faults = fs })).1
        file
        (saved file (with_subscriptions (or_first_file file) (r (or_first_file file))))
unfolding load_webhooks ◌>>=◌
update-cases r file [] = write_back-cases (or_first_file file) _ file []
update-cases r file (true ∷ fs) = inl refl
update-cases r file (false ∷ fs) = write_back-cases (or_first_file file) _ file fs

-- A call leaves the file as it was, or changes it as a whole.
pub after_call-cases :
    (c : WebhookCall) (s : WebhookDisk)
    → UnchangedOr (after_call c s) s.file (saved s.file (changed c (content s)))
unfolding after_call changed delete_webhook record_delivery
after_call-cases (creates sub) s = create-cases sub s.file s.faults
after_call-cases (deletes id owner is_admin) s = update-cases _ s.file s.faults
after_call-cases (delivers now id status_code success) s = update-cases _ s.file s.faults
