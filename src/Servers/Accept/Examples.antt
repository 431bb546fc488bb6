-- ===== src/Servers/Accept/Examples.antt =====
-- Tests of `accept`, and its theorem for a connection to a server that was built.
use mathlib.Core.List.{Memᴰ}
use tls_proxy_tunnel.Base.{◌≡◌, refl, ◌⊎◌, true, none, List, [], ◌∷◌, String}
use tls_proxy_tunnel.Base.Dict.{get, contains_key, insert}
use tls_proxy_tunnel.Net.{other, v4, io_ok, io_err}
use tls_proxy_tunnel.Config.Types.{default_via}
use tls_proxy_tunnel.Upstreams.Failure.{Failure, ok, io_error}
use tls_proxy_tunnel.Upstreams.Http.{done}
use tls_proxy_tunnel.Upstreams.Process.{echoed, process}
use tls_proxy_tunnel.Servers.Semaphores.{counter}
use tls_proxy_tunnel.Servers.Types.{is_health_server}
use tls_proxy_tunnel.Servers.Routing.{
  find_target, matched_target, select_target, route, connect_target, pick_upstream,
}
use tls_proxy_tunnel.Servers.Builder.Sample.{
  config, parse_addr, show_addr, proxy_at, server, upstreams, builds, config-IsWellFormed,
}
use tls_proxy_tunnel.Servers.Accept.{
  Inbound, Handled, handled, refused, peer_checked, read_snis, hello_buf, process_at, handle_picked,
  handle, accept,
}
use tls_proxy_tunnel.Servers.Accept.Sample.{
  parser, no_alphanumeric, no_env, show_io, world, arrives,
}
use tls_proxy_tunnel.Utf8.{as_bytes}
use tls_proxy_tunnel.Servers.Accept.Hello.{IsHelloFrom, IsChoice, accept-IsHelloFrom}
use tls_proxy_tunnel.Servers.Accept.Choices.{IsSocketError, IsHandled, accept-IsHandled}

abbrev gone : Inbound
gone = record { logs_info = true; peer_addr = io_err (other "not connected"); peek = io_ok [] }

-- A name in the map sends the connection to its upstream.
handles :
    handle no_alphanumeric no_env show_io (proxy_at 443 0) world ("x.org" ∷ [])
    ≡ handled (record {
      name = "echo";
      via = default_via;
      target = none;
      upstreams = upstreams;
      result = done (echoed 12);
    })
unfolding handle handle_picked process_at process insert route matched_target select_target
    find_target get connect_target pick_upstream
handles = refl

refuses_unknown_peer :
    accept no_alphanumeric no_env show_io parser (proxy_at 443 0) gone world
    ≡ refused (io_error (other "not connected"))
unfolding accept peer_checked is_health_server get
refuses_unknown_peer = refl

handles_arrival :
    ((e : Failure) × (accept no_alphanumeric no_env show_io parser (proxy_at 443 0) arrives world
        ≡ refused e)
      × IsSocketError (proxy_at 443 0) arrives e)
    ⊎ ((h : Handled) × (snis : List String) × (accept no_alphanumeric no_env show_io parser
            (proxy_at 443 0)
            arrives
            world
          ≡ handled h)
        × (read_snis parser (proxy_at 443 0) arrives ≡ ok snis)
        × IsHandled no_alphanumeric no_env show_io (proxy_at 443 0) world snis h)
unfolding contains_key get
handles_arrival =
    accept-IsHandled no_alphanumeric no_env show_io parser (proxy_at 443 0) arrives world counter
      parse_addr show_addr config server (7 ∷ 7 ∷ []) config-IsWellFormed refl builds
      (Memᴰ.head refl)

arrives-IsHelloFrom : IsHelloFrom parser arrives ("x.org" ∷ [])
unfolding as_bytes
arrives-IsHelloFrom = record {
  peer = v4 1 2;
  known = refl;
  arrived = [];
  peeked = refl;
  hello = record {
    header = tt;
    body = hello_buf [];
    ext = none;
    before = [];
    behind = [];
    raw = refl;
    message = refl;
    extensions = refl;
    others_before = tt;
    others_behind = tt;
  };
}

accept-IsHelloFrom_example :
    (h : Handled) × (accept no_alphanumeric no_env show_io parser (proxy_at 443 0) arrives world
      ≡ handled h)
    × IsChoice (proxy_at 443 0) ("x.org" ∷ []) h
    × IsHandled no_alphanumeric no_env show_io (proxy_at 443 0) world ("x.org" ∷ []) h
unfolding contains_key get
accept-IsHelloFrom_example =
    accept-IsHelloFrom no_alphanumeric no_env show_io parser (proxy_at 443 0) arrives world counter
      parse_addr show_addr config server (7 ∷ 7 ∷ []) ("x.org" ∷ []) config-IsWellFormed refl builds
      (Memᴰ.head refl) refl arrives-IsHelloFrom
