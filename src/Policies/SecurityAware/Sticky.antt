-- ===== src/Policies/SecurityAware/Sticky.antt =====
-- That an app stays in quarantine until it is cleared or removed.
use konro.Base.{◌≡◌, ◌∙◌, refl, sym, ap, subst, true, Option, none, some, List, All}
use konro.Base.Int.{ℤ, pos}
use konro.Base.OrderedSet.{find}
use konro.AppMapping.{CgroupFiles, AppMapping, Context}
use konro.Float.{Float}
use konro.PolicyManager.{mapping_key, Event, PolicyManager}
use konro.PolicyManager.Preserved.{run}
use konro.PolicyManager.Lasting.{LeavesTracked, Lasts, HoldsOf, run-Holds}
use konro.Policies.Mapped.{app-Hides, called-app}
use konro.Policies.SecurityAware.{SecurityAwarePolicy}
use konro.Policies.SecurityAware.Flag.{IsFlagged, quarantine_stays}
use konro.Policies.SecurityAware.Frame.{remove_app-Keeps}
use konro.Policies.SecurityAware.Instance.{security_aware_policy_instance}
use konro.SecState.{quarantine, is_quarantine}

-- In QUARANTINE, and flagged.
abbrev pub IsContained : {fl : Float} → AppMapping fl → Type 0
IsContained m = (m.sec_state.state ≡ quarantine) × (m.quarantine ≡ true)

module _ (fl : Float) (files : CgroupFiles) where
  abbrev C : Type 0
  C = Context fl files (SecurityAwarePolicy fl files)

  abbrev in_context : AppMapping fl → SecurityAwarePolicy fl files × files.World → C
  in_context m s = record { mapping = m; own = s.0; world = s.1 }

  flagged_lem : (m : AppMapping fl) → IsContained m → IsFlagged fl files m
  flagged_lem m h = h.1 ∙ sym (ap is_quarantine h.0)

  IsContained-Lasts : Lasts fl (security_aware_policy_instance fl files) IsContained
  IsContained-Lasts = record {
    fed_back = λ m n s h.
        let e = (quarantine_stays fl files n m.sai (in_context m s) h.0 (flagged_lem m h)).0 in
        subst (λ r. IsContained r.1.mapping) (sym e) h;
    secured = λ m x f l s h.
        let d = in_context (record m { sai = x }) s in
        let e = (quarantine_stays fl files (pos 0) x d h.0 (flagged_lem d.mapping h)).1 in
        subst (λ r. IsContained r.1.mapping) (sym e) h;
    remove_app-app = λ ms m s. called-app m s (remove_app-Keeps app-Hides);
  }

  still_tracked :
      (k : ℤ) (found : Option (AppMapping fl))
      → HoldsOf fl (security_aware_policy_instance fl files) IsContained k found
      → (m : AppMapping fl) × (found ≡ some m) × IsContained m
  still_tracked k none h = absurd h
  still_tracked k (some m) h = (m, refl, h)

  -- Only the operator or the end of the app ends a quarantine: an app that is tracked, in QUARANTINE and
  -- flagged is all of that after any events that the manager handles, alerts for it and its feedback and
  -- all that befalls other apps included, unless one of them adds, removes or clears this app.
  pub run-IsContained :
      (k : ℤ) (es : List (Event fl)) (m : AppMapping fl)
      (pm pm' : PolicyManager fl (security_aware_policy_instance fl files))
      → All (LeavesTracked k) es
      → find (mapping_key fl) k pm.apps ≡ some m
      → IsContained m
      → run fl (security_aware_policy_instance fl files) es pm ≡ some pm'
      → (m' : AppMapping fl) × (find (mapping_key fl) k pm'.apps ≡ some m') × IsContained m'
  run-IsContained k es m pm pm' l f h e = still_tracked k (find (mapping_key fl) k pm'.apps) (
      run-Holds fl (security_aware_policy_instance fl files) IsContained k IsContained-Lasts es pm
        pm' l (rw f h) e)
