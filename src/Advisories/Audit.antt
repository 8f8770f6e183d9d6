-- ===== src/Advisories/Audit.antt =====
-- The completeness of the audit of installed plugins.
use mathlib.Core.List.Memᴰ
use mathlib.Core.List.{Memᴰ}
use mathlib.Core.Path.{subst}
use semrel_registry.Prelude.{
  ◌≡◌, refl, sym, ap, ◌∙◌, Bool, true, false, List, [], ◌∷◌, All, keep_if, length, ◌≤◌, ltb,
  Bool-cases, inl, inr, arith, ℕ,
}
use semrel_registry.Models.{Plugin, SecurityAdvisory}
use semrel_registry.Result.{Result, ok, err}
use semrel_registry.Repository.Interface.{PluginRepository}
use semrel_registry.Repository.Writes.{or_empty}
use semrel_registry.Service.Lookup.{get_plugin}
use semrel_registry.Handlers.{proceed}
use semrel_registry.Advisories.{
  Entry, Finding, advisory_affects, affecting, add_finding, judge_entry, audit_entries,
  audit_plugins,
}

mem-keep_if :
    {A : Type 0} (p : A → Bool) (x : A) (xs : List A)
    → p x ≡ true
    → Memᴰ x xs
    → Memᴰ x (keep_if p xs)
mem-keep_if p x [] h m = absurd (Memᴰ.not-nil m)
mem-keep_if p x (y ∷ xs) h (Memᴰ.head e) = rw (ap p (sym e) ∙ h) (Memᴰ.head e)
mem-keep_if p x (y ∷ xs) h (Memᴰ.tail m) = elim (Bool-cases (p y)) [
  | inl e ↦ rw e (Memᴰ.tail (mem-keep_if p x xs h m))
  | inr e ↦ rw e (mem-keep_if p x xs h m)
]

-- A finding on the entry that names the advisory.
abbrev pub Reports : Entry → SecurityAdvisory → List Finding → Type 0
Reports e a fs =
    (f : Finding) × Memᴰ f fs × f.ref ≡ e.ref × f.version ≡ e.version × Memᴰ a f.advisories

Reports-add_finding :
    (e : Entry) (a : SecurityAdvisory) (as' : List SecurityAdvisory) (rest : List Finding)
    → Memᴰ a as'
    → Reports e a (add_finding e as' rest)
Reports-add_finding e a [] rest m = absurd (Memᴰ.not-nil m)
Reports-add_finding e a (b ∷ as') rest m = (_, Memᴰ.head refl, refl, refl, m)

Reports-kept :
    (e d : Entry) (a : SecurityAdvisory) (as' : List SecurityAdvisory) (rest : List Finding)
    → Reports e a rest
    → Reports e a (add_finding d as' rest)
Reports-kept e d a [] rest h = h
Reports-kept e d a (b ∷ as') rest (f, m, r, v, n) = (f, Memᴰ.tail m, r, v, n)

Reports-later :
    (e d : Entry) (a : SecurityAdvisory) (r : Result Plugin) (rest : List Finding)
    → Reports e a rest
    → Reports e a (judge_entry d r rest)
unfolding judge_entry
Reports-later e d a (err x) rest h = h
Reports-later e d a (ok p) rest h = Reports-kept e d a (affecting p d.version) rest h

Reports-now :
    (e : Entry) (a : SecurityAdvisory) (p : Plugin) (rest : List Finding)
    → Memᴰ a (or_empty p.security_advisories)
    → advisory_affects a e.version ≡ true
    → Reports e a (judge_entry e (ok p) rest)
unfolding judge_entry affecting
Reports-now e a p rest m h =
    Reports-add_finding e a (affecting p e.version) rest
      (mem-keep_if (λ b. advisory_affects b e.version) a (or_empty p.security_advisories) h m)

not_ltb : (n : ℕ) → n ≤ 200 → ltb 200 n ≡ false
not_ltb n h = ground (arith, h)

module _ {S : Type 0} (repo : PluginRepository S) (s : S) where
  -- The search for a plugin leaves the store as it is.
  abbrev pub IsRead : Entry → Type 0
  IsRead e = (get_plugin repo e.ref s).1 ≡ s

  Reports-audit_entries :
      (es : List Entry) (e : Entry) (p : Plugin) (a : SecurityAdvisory)
      → All IsRead es
      → Memᴰ e es
      → (get_plugin repo e.ref s).0 ≡ ok p
      → Memᴰ a (or_empty p.security_advisories)
      → advisory_affects a e.version ≡ true
      → Reports e a (audit_entries repo es s).0
  unfolding audit_entries
  Reports-audit_entries [] e p a reads m found stored h = absurd (Memᴰ.not-nil m)
  Reports-audit_entries (d ∷ es) e p a (read, reads) (Memᴰ.head eq) found stored h =
      let rest = (audit_entries repo es (get_plugin repo d.ref s).1).0 in
      subst (λ d'. Reports e a (judge_entry d' (get_plugin repo d'.ref s).0 rest)) eq
        (rw found (Reports-now e a p rest stored h))
  Reports-audit_entries (d ∷ es) e p a (read, reads) (Memᴰ.tail m) found stored h =
      Reports-later e d a (get_plugin repo d.ref s).0 _
        (rw read (Reports-audit_entries es e p a reads m found stored h))

  -- The audit misses no known vulnerability: for a request of at most 200 entries whose look-ups
  -- leave the store as it is, the answer is a list of findings, and if an entry names a plugin
  -- that is found and a stored advisory of it affects the version, a finding on that reference and
  -- version lists the advisory.
  pub audit_plugins-Reports :
      (es : List Entry) (e : Entry) (p : Plugin) (a : SecurityAdvisory)
      → length es ≤ 200
      → All IsRead es
      → Memᴰ e es
      → (get_plugin repo e.ref s).0 ≡ ok p
      → Memᴰ a (or_empty p.security_advisories)
      → advisory_affects a e.version ≡ true
      → (fs : List Finding) × (audit_plugins repo es s).0 ≡ proceed fs × Reports e a fs
  unfolding audit_plugins
  audit_plugins-Reports es e p a short reads m found stored h = (
    (audit_entries repo es s).0,
    rw (not_ltb (length es) short) refl,
    Reports-audit_entries es e p a reads m found stored h,
  )
