-- ===== src/Policies/SecurityAware/Invariant.antt =====
-- The quarantine flags of all apps of a PolicyManager whose policy is SecurityAwarePolicy.
use konro.Base.{◌≡◌, refl, inl, inr, false, some, List, [], ◌∷◌, All, Bool-cases, if◌then◌else◌}
use konro.Base.Int.{ℤ}
use konro.AppMapping.{CgroupFiles, AppMapping, Context, set_sai, set_quarantine}
use konro.Effect.{M, Exit, ok, exception, undefined, Returns, continue, ◌>>◌}
use konro.Float.{Float}
use konro.PolicyManager.{Event, PolicyManager}
use konro.PolicyManager.Preserved.{Kept, Kept-on_all, Preserves, run, run-All}
use konro.Policies.Mapped.{called}
use konro.Policies.SecurityAware.{
  SecurityAwarePolicy, add_app, remove_app, react, feedback, security_alert, clear_app, apply_state,
}
use konro.Policies.SecurityAware.Flag.{
  IsFlagged, flags-Hides, Keeps-IsFlagged, apply_state-IsFlagged, security_alert-IsFlagged,
}
use konro.Policies.SecurityAware.Frame.{add_app-Keeps, remove_app-Keeps, feedback-Keeps}
use konro.Policies.SecurityAware.Instance.{security_aware_policy_instance}
use konro.SecState.{observe, is_quarantine, clear}

module _ (fl : Float) (files : CgroupFiles) where
  open fl use {literal}

  abbrev Ctx : Type 0
  Ctx = Context fl files (SecurityAwarePolicy fl files)

  abbrev P : AppMapping fl → Type 0
  P = IsFlagged fl files

  Kept-Returns :
      (r : Exit (Unit {0}) × Ctx)
      → Returns (λ u d. P d.mapping) r
      → Kept {S = SecurityAwarePolicy fl files × files.World} P
          (r.0, r.1.mapping, (r.1.own, r.1.world))
  unfolding Returns
  Kept-Returns (ok u, d) h = h
  Kept-Returns (exception, d) h = tt
  Kept-Returns (undefined, d) h = tt

  abbrev in_context : AppMapping fl → SecurityAwarePolicy fl files × files.World → Ctx
  in_context m s = record { mapping = m; own = s.0; world = s.1 }

  called-IsFlagged :
      (m : M Ctx (Unit {0})) (mapping : AppMapping fl)
      (s : SecurityAwarePolicy fl files × files.World)
      → P (m (in_context mapping s)).1.mapping
      → Kept P (called m mapping s)
  called-IsFlagged m mapping s h = Kept-on_all P (called m mapping s) h

  -- The rest of `clearApp` behind the write of cgroup.freeze, which may throw.
  thawed-IsFlagged :
      (r : Exit (Unit {0}) × files.World) (c : Ctx)
      → c.mapping.sec_state.state ≡ observe
      → Returns
          (λ u d. P d.mapping)
          (continue
            (r.0, record c { world = r.1 })
            (λ u.
              set_quarantine fl files false
              >> set_sai fl files (literal 0 1)
              >> apply_state fl files observe))
  unfolding Returns set_quarantine set_sai
  thawed-IsFlagged (ok u, w) c e = all_exits _ (
      apply_state-IsFlagged fl files observe
        (record c {
          mapping = record c.mapping { quarantine = false; sai = literal 0 1 };
          world = w;
        })
        e (inr refl))
    where
      all_exits : (r : Exit (Unit {0}) × Ctx) → P r.1.mapping → Returns (λ u d. P d.mapping) r
      all_exits (ok u, d) h = unfold Returns in h
      all_exits (exception, d) h = unfold Returns in tt
      all_exits (undefined, d) h = unfold Returns in tt
  thawed-IsFlagged (exception, w) c e = tt
  thawed-IsFlagged (undefined, w) c e = tt

  clear_app-IsFlagged : (c : Ctx) → Returns (λ u d. P d.mapping) (clear_app fl files c)
  unfolding clear_app set_quarantine set_sai
  clear_app-IsFlagged c =
      thawed-IsFlagged (files.set_freeze false c.mapping.app c.world)
        (record c { mapping = record c.mapping { sec_state = clear c.mapping.sec_state } })
        (unfold clear in refl)

  flagged-Preserves : Preserves fl (security_aware_policy_instance fl files) P
  flagged-Preserves = record {
    fresh = λ app. refl;
    alerted = λ sai m p. p;
    added = λ ms m s p. called-IsFlagged (add_app fl files) m s (
        Keeps-IsFlagged fl files (add_app fl files) (in_context m s)
          (add_app-Keeps (flags-Hides fl files)) p);
    removed = λ ms m s p. called-IsFlagged (remove_app fl files) m s (
        Keeps-IsFlagged fl files (remove_app fl files) (in_context m s)
          (remove_app-Keeps (flags-Hides fl files)) p);
    fed_back = λ m n s p. called-IsFlagged (feedback fl files n) m s (
        Keeps-IsFlagged fl files (feedback fl files n) (in_context m s)
          (feedback-Keeps (flags-Hides fl files) n) p);
    secured = λ m x f l s p.
        called-IsFlagged (security_alert fl files x) m s
          (security_alert-IsFlagged fl files x (in_context m s) p);
    freed = λ m s p.
        Kept-Returns (clear_app fl files (in_context m s)) (clear_app-IsFlagged (in_context m s));
  }

  -- The feedback of an app's application, as PolicyManager passes it to the policy, does nothing where
  -- the app is in QUARANTINE and is acted upon in every other state.
  unfoldable pub HeedsFeedback : AppMapping fl → Type 0
  HeedsFeedback m =
      (n : ℤ) (s : SecurityAwarePolicy fl files × files.World)
      → (security_aware_policy_instance fl files).feedback m n s
        ≡ (if is_quarantine m.sec_state.state then (ok tt, m, s) else called (react fl files n) m s)

  guarded :
      (m : AppMapping fl) (n : ℤ) (s : SecurityAwarePolicy fl files × files.World)
      → called (feedback fl files n) m s
        ≡ (if m.quarantine then (ok tt, m, s) else called (react fl files n) m s)
  unfolding feedback
  guarded m n s = elim (Bool-cases m.quarantine) [ inl e ↦ rw e refl | inr e ↦ rw e refl ]

  IsFlagged-HeedsFeedback : (m : AppMapping fl) → P m → P m × HeedsFeedback m
  unfolding HeedsFeedback
  IsFlagged-HeedsFeedback m h = (h, λ n s. rw (guarded m n s, h) refl)

  All-IsFlagged : (ms : List (AppMapping fl)) → All P ms → All (λ m. P m × HeedsFeedback m) ms
  All-IsFlagged [] h = tt
  All-IsFlagged (m ∷ ms) h = (IsFlagged-HeedsFeedback m h.0, All-IsFlagged ms h.1)

  -- Whatever events a PolicyManager with SecurityAwarePolicy handles, where it starts from a set in
  -- which each app is flagged exactly when it is in QUARANTINE, such as the empty one: in the end the
  -- same holds of all apps that it tracks, and feedback of their applications does nothing for those in
  -- QUARANTINE, and for every other what the code behind the test of isQuarantine does.
  pub run-IsFlagged :
      (es : List (Event fl)) (pm pm' : PolicyManager fl (security_aware_policy_instance fl files))
      → All P pm.apps
      → run fl (security_aware_policy_instance fl files) es pm ≡ some pm'
      → All (λ m. P m × HeedsFeedback m) pm'.apps
  run-IsFlagged es pm pm' h e =
      All-IsFlagged pm'.apps
        (run-All fl (security_aware_policy_instance fl files) P flagged-Preserves es pm pm' h e)
