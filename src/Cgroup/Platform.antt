-- ===== src/Cgroup/Platform.antt =====
-- CGroupControl as the platform control of the workload manager (rm/platformcontrol/iplatformcontrol.h)
-- and where the apps that it adds stand.
use Prim.Native.String.{String}
use konro.Base.{
  ◌≡◌, refl, ◌++◌, [], ◌∷◌, ◌⊎◌, inl, inr, Bool, true, false, Option, none, some, if◌then◌else◌,
}
use konro.Base.Int.{ℤ}
use konro.App.{App, set_cgroup_dir}
use konro.Cgroup.{CgroupConfig, konro_app_dir, do_not_move}
use konro.Cgroup.Errors.{add_application-total}
use konro.Cgroup.Moves.{add_application, remove_application}
use konro.Effect.{Exit, ok, exception, undefined}
use konro.Os.{Os}
use konro.Text.{Bytes}
use konro.WorkloadManager.{
  IPlatformControl, Added, added, refused, threw, WorkloadManager, add_event, app_key, add, settle,
  publish,
}
use konro.Base.OrderedSet.{insert}

-- What the workload manager learns from `addApplication`. The app is shared, so that the directory
-- that was stored shows in it. Nothing goes on behind undefined behaviour either.
abbrev pub outcome : {P : Type 0} → App → Exit (Bool × Option Bytes) × P → Added P
outcome app (ok (true, some dir), w) = added (set_cgroup_dir dir app) w
outcome app (ok (true, none), w) = added app w
outcome app (ok (false, dir), w) = refused w
outcome app (exception, w) = threw
outcome app (undefined, w) = threw

module _ (os : Os) (config : CgroupConfig) (name_of : os.World → ℤ → String) where
  abbrev pub cgroup_control : IPlatformControl
  cgroup_control = record {
    P = os.World;
    add_application = λ app w. outcome app (add_application os config app w);
    remove_application = λ app w. (remove_application os config app w).1;
    process_name = name_of;
  }

  settle_lem :
      (app : App) (w : WorkloadManager cgroup_control) (dir : Bytes) (b : Bool) (v : os.World)
      → (w' : WorkloadManager cgroup_control) × (settle cgroup_control
            (outcome app (ok (b, (if b then some dir else none)), v))
            w
          ≡ some w')
        × ((w'.bus ≡ w.bus) × (w'.apps ≡ w.apps)
            ⊎ (w'.bus ≡ w.bus ++ add_event (set_cgroup_dir dir app) ∷ []))
  unfolding settle publish
  settle_lem app w dir true v = (
    publish cgroup_control (add_event (set_cgroup_dir dir app))
        (record w { platform = v; apps = insert app_key (set_cgroup_dir dir app) w.apps }),
    refl,
    inr refl,
  )
  settle_lem app w dir false v = (record w { platform = v }, refl, inl (refl, refl))

  -- Adding an app that is given a directory of its own never throws: it is refused and nothing
  -- changes but the platform, or it is told to all with the directory that is named by its pid.
  pub add-konro_app_dir :
      (app : App) (w : WorkloadManager cgroup_control)
      → do_not_move os config app.app_type ≡ false
      → (w' : WorkloadManager cgroup_control) × (add cgroup_control app w ≡ some w')
        × ((w'.bus ≡ w.bus) × (w'.apps ≡ w.apps)
            ⊎ (w'.bus
                ≡ w.bus ++ add_event (set_cgroup_dir (konro_app_dir os config app.pid) app) ∷ []))
  unfolding add
  add-konro_app_dir app w h =
      let (b, v, e) = (add_application-total os config app w.platform h).0 in
      let (w', s, k) = settle_lem app w (konro_app_dir os config app.pid) b v in (w', rw e s, k)
