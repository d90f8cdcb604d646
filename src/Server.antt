-- ===== src/Server.antt =====
-- sim/include/network/grpcServer.h, sim/src/network/grpcServer.cpp, and getEnv of sim/src/main.cpp:
-- how the server of the engine is started and ended. The environment and std::stoi are parameters,
-- and so is the gRPC library: what its builder gives after the calls so far. The calls are written
-- down in order, the last one first.
use bento_box.Base.{Bool, true, String, List, [], ◌∷◌, Option, none, some}
use bento_box.Base.Int.{ℤ}
use bento_box.Base.Text.{joined, to_string}
use bento_box.Exec.{
  Exec, Result, ok, no_services, server_not_started, pure, raise, lift, modify, ◌>>=◌, ◌>>◌,
}

unfoldable pub get_env : (String → Option String) → String → String → String
get_env env name default_value = value_or (env name)
  where
    value_or : Option String → String
    value_or none = default_value
    value_or (some value) = value

pub data ServerCall (Service Handle : Type 0) : Type 0 where
  enable_default_health_check_service : Bool → ServerCall Service Handle
  init_proto_reflection_server_builder_plugin build_and_start : ServerCall Service Handle
  add_listening_port : String → ServerCall Service Handle
  register_service : Service → ServerCall Service Handle
  set_serving_status : Handle → Bool → ServerCall Service Handle
  wait_for shut_down : Handle → ServerCall Service Handle

-- What the server keeps: `host_`, `address_`, and what the builder gave, `port_` and `server`.
pub record GrpcServer (Handle : Type 0) : Type 0 where
  pub host : String
  pub address : String
  pub port : ℤ
  pub server : Handle

-- Code that calls the library.
abbrev Wire : Type 0 → Type 0 → Type 0 → Type 0
Wire Service Handle A = Exec (List (ServerCall Service Handle)) A

module _ {Service Handle : Type 0} where
  abbrev call : ServerCall Service Handle → Wire Service Handle (Unit {0})
  call c = modify λ calls. c ∷ calls

  unfoldable register_all : List Service → Wire Service Handle (Unit {0})
  unfolding ◌>>=◌
  register_all [] = pure tt
  register_all (service ∷ rest) = do call (register_service service); register_all rest

  unfoldable pub wait : GrpcServer Handle → Wire Service Handle (Unit {0})
  wait s = call (wait_for s.server)

  unfoldable pub shutdown : GrpcServer Handle → Wire Service Handle (Unit {0})
  shutdown s = call (shut_down s.server)

  -- the destructor
  unfoldable pub destroy : GrpcServer Handle → Wire Service Handle (Unit {0})
  unfolding shutdown
  destroy s = shutdown s

  module _ (built : List (ServerCall Service Handle) → Option (ℤ × Handle)) where
    abbrev build : Wire Service Handle (Option (ℤ × Handle))
    build calls = (ok (built calls), build_and_start ∷ calls)

    -- the test of the server for a null pointer, and its health check
    abbrev started : String → String → Option (ℤ × Handle) → Wire Service Handle (GrpcServer Handle)
    started host address none = raise server_not_started
    started host address (some (port, server)) = do
      call (set_serving_status server true)
      pure (record { host = host; address = address; port = port; server = server })

    abbrev address_of : String → ℤ → String
    address_of host port = joined (host ∷ ":" ∷ to_string port ∷ [])

    -- the constructor
    unfoldable pub grpc_server : String → ℤ → List Service → Wire Service Handle (GrpcServer Handle)
    unfolding ◌>>=◌ to_string register_all
    grpc_server host port [] = raise no_services
    grpc_server host port (service ∷ rest) = do
      call (enable_default_health_check_service true)
      call init_proto_reflection_server_builder_plugin
      call (add_listening_port (address_of host port))
      register_all (service ∷ rest)
      server ← build
      started host (address_of host port) server

    -- how `main` starts the server
    unfoldable pub start :
        (String → Option String)
        → (String → Result ℤ)
        → List Service
        → Wire Service Handle (GrpcServer Handle)
    unfolding ◌>>=◌ get_env grpc_server
    start env stoi services = do
      port ← lift (stoi (get_env env "BENTOBOX_SIM_PORT" "54242"))
      grpc_server (get_env env "BENTOBOX_SIM_HOST" "localhost") port services
