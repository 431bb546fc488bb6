-- ===== src/Servers/Shutdown/Examples.antt =====
-- Tests of the server's life, and its theorems for one listener with one connection.
use tls_proxy_tunnel.Base.{◌≡◌, refl, true, false, List, [], ◌∷◌, none, String, arith}
use tls_proxy_tunnel.Base.Dict.{get}
use tls_proxy_tunnel.Net.{v4, other, io_ok, io_err}
use tls_proxy_tunnel.Config.Types.{default_via}
use tls_proxy_tunnel.Upstreams.Types.{ban, health}
use tls_proxy_tunnel.Servers.Semaphores.{counter}
use tls_proxy_tunnel.Servers.Types.{Proxy, is_health_server}
use tls_proxy_tunnel.Servers.Listener.{
  listening, stopped, broken, accepted, cancelled, ended, remove_id, start, listen_step, loop_step,
  on_ended,
}
use tls_proxy_tunnel.Servers.Shutdown.{
  is_listening, is_empty, start_task, Run, RunEvent, signal, at, run_step, step_at, task_step, run,
  is_over, all_over, returned,
}
use tls_proxy_tunnel.Servers.Shutdown.Drain.{drain, run_drains}
use tls_proxy_tunnel.Servers.Shutdown.Waits.{run_waits, run_needs_signal}

abbrev front : String → Proxy
front protocol = record {
  name = "front";
  listen = v4 0 443;
  protocol = protocol;
  tls = false;
  sni = none;
  default_action = "ban";
  upstream = ("ban", ban) ∷ ("health", health []) ∷ [];
  via = default_via;
  maxclients = 0;
  maxclients_limit = 2;
}

-- The protocol names of the upstreams are not all names of listeners' protocols.
unknown_protocol_stops : (start_task counter (front "udp") (io_ok tt) 2).listener.status ≡ stopped
unfolding start_task start is_health_server get
unknown_protocol_stops = refl

bind_fails :
    (start_task counter (front "tcp") (io_err (other "in use")) 2).listener.status
    ≡ broken (other "in use")
unfolding start_task start is_health_server get
bind_fails = refl

abbrev one_connection : Run counter
one_connection = record {
  token = false;
  tasks =
      record {
        is_health = false;
        listener = record {
          semaphore = 1;
          held = 7 ∷ [];
          unlimited = [];
          rejected = [];
          status = listening;
        };
      }
      ∷ [];
}

-- The token's branch is not taken before the signal, and a connection still comes after it.
abbrev stop : List RunEvent
stop =
    at 0 cancelled
    ∷ signal
    ∷ at 0 (accepted 8)
    ∷ at 0 cancelled
    ∷ at 0 (accepted 9)
    ∷ at 0 (ended 8)
    ∷ []

waits : returned counter (run counter one_connection stop) ≡ false
unfolding returned run run_step step_at task_step listen_step loop_step on_ended remove_id all_over
    is_over is_listening is_empty
waits = refl

run_waits_example : returned counter (run counter one_connection stop) ≡ false
run_waits_example =
    run_waits counter one_connection stop 0 7 refl
      ((λ e. cc), ((λ e. cc), ((λ e. cc), ((λ e. cc), ((λ e. cc), ((λ e. ground arith), tt))))))

no_signal_no_return : returned counter (run counter one_connection (at 0 (ended 7) ∷ [])) ≡ false
no_signal_no_return =
    run_needs_signal counter one_connection (at 0 (ended 7) ∷ []) refl ((λ e. cc), tt)

drains :
    returned counter (run counter one_connection (signal ∷ drain counter one_connection.tasks))
    ≡ true
drains = run_drains counter one_connection
