-- ===== src/Tests/Start.antt =====
-- The start of the process, and its goroutines.
use api_manager.Tests.World.{cluster, healthy_cluster}
use api_manager.Tests.Session.{in_directory, sample_session, done_injective, old_nonempty}
use api_manager.Tests.Rounds.{fixed_splitter}
use api_manager.World.Errors.{ok}
use api_manager.World.Env.{Env, failed}
use api_manager.Main.{Namespaces, with_defaults}
use api_manager.Main.Flags.{default_flags}
use api_manager.Main.Start.{start_up, namespaces_of}
use api_manager.Main.Steps.{Follows}
use api_manager.Main.Plan.{plan, start_up-Follows}
use api_manager.Base.{◌≡◌, ◌≢◌, refl, true, [], none, inr}
use api_manager.Process.{
  Exit, Live, live, exited, status, started, refresh, leave_exit, ask, Reach, here, later, sending,
  shared_volumes, leaving, set,
}
use api_manager.Process.Tokens.{Reach-IsToken}
use api_manager.Process.Resets.{Reach-Served, Served}
use api_manager.Process.Shutdown.{EndsByRefresh, status_races, never_status_zero}
use api_manager.Session.Token.{IsToken}
use api_manager.Session.Outcomes.{AnswersTokens}
use mathlib.Core.Path.{subst}
use api_manager.Go.Text.Laws.{has_blank}
use api_manager.World.Monad.{ask_api, ◌>>=◌}
use api_manager.Storageos.SharedVolume.Listing.{list_shared_volumes}
use api_manager.Session.Refresh.{Moves}

abbrev in_cluster_namespaces : Namespaces
in_cluster_namespaces = with_defaults (ok "storageos") (namespaces_of default_flags)

start_up-Follows_example :
    Follows healthy_cluster
      (plan default_flags in_cluster_namespaces)
      (start_up healthy_cluster default_flags in_cluster_namespaces)
start_up-Follows_example = start_up-Follows healthy_cluster default_flags in_cluster_namespaces

-- The StorageOS API lists nothing, but logs in.
abbrev silent_cluster : Env
silent_cluster = record healthy_cluster {
  namespaces = λ h. failed (record { status = none; message = "connection refused" });
  nodes = λ h. failed (record { status = none; message = "connection refused" });
}

silent_cluster-AnswersTokens : AnswersTokens silent_cluster
unfolding cluster
silent_cluster-AnswersTokens = record {
  on_refresh = λ h header e. inr (subst (λ s. has_blank s ≡ true) (done_injective e) refl);
  on_login = λ h u p header e. inr (subst (λ s. has_blank s ≡ true) (done_injective e) refl);
}

abbrev at_start : Live
at_start = started sample_session

-- The shared volume controller waits to send a request.
abbrev asking : Live
asking = record at_start { threads = set at_start.threads shared_volumes sending }

Reach-asking : Reach fixed_splitter silent_cluster in_directory "/api" at_start (live asking)
unfolding list_shared_volumes ask_api ◌>>=◌ cluster
Reach-asking = later here (ask shared_volumes [] refl (_, refl))

Reach-IsToken_example : Moves silent_cluster in_directory "/api" "old" "old" × IsToken "old"
Reach-IsToken_example =
    Reach-IsToken fixed_splitter silent_cluster in_directory "/api" sample_session asking
      (old_nonempty, refl) Reach-asking

Reach-Served_example :
    Served fixed_splitter silent_cluster in_directory "/api" asking shared_volumes []
Reach-Served_example =
    Reach-Served fixed_splitter silent_cluster in_directory "/api" silent_cluster-AnswersTokens
      sample_session asking shared_volumes [] Reach-asking refl refl

-- The same when a signal has come, and when `Refresh` has left.
abbrev stopping : Live
stopping = record asking { cancelled = true }

abbrev deserted : Live
deserted = record stopping {
  session = record sample_session { open_bodies = 0 };
  refresher = leaving;
}

-- A signal that comes while no request waits.
abbrev signalled : Live
signalled = record at_start { cancelled = true }

status_races_example :
    Reach fixed_splitter silent_cluster in_directory "/api" signalled (exited (status 0))
    × EndsByRefresh silent_cluster in_directory "/api" signalled
status_races_example =
    status_races fixed_splitter silent_cluster in_directory "/api" signalled refl (λ e. cc)

never_status_zero_example : ◌≢◌ {A = Exit} (status 1) (status 0)
never_status_zero_example =
    never_status_zero fixed_splitter silent_cluster in_directory "/api" deserted (status 1) refl
      refl (later here (refresh (leave_exit refl)))
