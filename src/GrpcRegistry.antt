-- ===== src/GrpcRegistry.antt =====
-- backend/grpc_registry.py: the registration of a worker with the gateway. Of Redis the entries of
-- this worker are kept, and each call is told whether it fails.
pub mod Liveness
use skribbl_app.Prelude.{
  ℕ, ◌+◌, ◌*◌, Bool, true, false, Option, none, some, List, [], ◌∷◌, ◌++◌, ltb,
}
use skribbl_app.Text.{Text, codes, show_nat}
use skribbl_app.Session.{second}

abbrev pub grpc_alive_ttl : ℕ
grpc_alive_ttl = 30 * second

abbrev pub refresh_interval : ℕ
refresh_interval = 10 * second

-- The worker's entry of the hash of addresses, and the time at which its liveness key expires.
pub record Redis : Type 0 where
  pub address : Option Text
  pub alive_until : Option ℕ

-- The module's state with Redis; the refresh task is pending or not.
pub record Registration : Type 0 where
  pub redis : Redis
  pub registered : Bool
  pub refreshing : Bool

-- What becomes of a call or two of Redis: both are done, the first only, or none.
pub data Calls : Type 0 where
  both first neither : Calls

abbrev pub set_alive : ℕ → Redis → Redis
set_alive now r = record r { alive_until = some (now + grpc_alive_ttl) }

abbrev pub set_address : Text → Redis → Redis
set_address address r = record r { address = some address }

-- `register_grpc_worker`; `available` is that Redis is enabled and has a client.
unfoldable pub register_grpc_worker :
    (now : ℕ) (available : Bool) (hostname : Text) (port : ℕ) → Calls → Registration → Registration
register_grpc_worker now false hostname port calls r = r
register_grpc_worker now true hostname port both r = record {
  redis = set_alive now (set_address (hostname ++ codes ":" ++ show_nat port) r.redis);
  registered = true;
  refreshing = true;
}
register_grpc_worker now true hostname port first r = record r {
  redis = set_address (hostname ++ codes ":" ++ show_nat port) r.redis;
}
register_grpc_worker now true hostname port neither r = r

-- One round of `_refresh_liveness_loop`; a client that is gone and a call that fails change nothing.
unfoldable pub refresh : (now : ℕ) (done : Bool) → Registration → Registration
refresh now true r = record r { redis = set_alive now r.redis }
refresh now false r = r

-- `unregister_grpc_worker`; `client` is that Redis has a client still.
unfoldable pub unregister_grpc_worker : (client : Bool) → Calls → Registration → Registration
unregister_grpc_worker client calls r = drop_entries r.registered client calls
  where
    drop_entries : Bool → Bool → Calls → Registration
    drop_entries false client calls = record r { refreshing = false }
    drop_entries true false calls = record r { refreshing = false; registered = false }
    drop_entries true true both = record {
      redis = record { address = none; alive_until = none };
      registered = false;
      refreshing = false;
    }
    drop_entries true true first = record {
      redis = record r.redis { address = none };
      registered = false;
      refreshing = false;
    }
    drop_entries true true neither = record r { refreshing = false; registered = false }

-- The rounds of the loop from a time on, by whether their calls are done.
unfoldable pub refresh_rounds : (now : ℕ) → List Bool → Registration → Registration
unfolding refresh
refresh_rounds now [] r = r
refresh_rounds now (done ∷ rounds) r =
    let later = now + refresh_interval in refresh_rounds later rounds (refresh later done r)

-- The gateway reads the key: it is there before it expires.
abbrev pub expires_after : ℕ → Option ℕ → Bool
expires_after now none = false
expires_after now (some t) = ltb now t

abbrev pub is_alive : ℕ → Registration → Bool
is_alive now r = expires_after now r.redis.alive_until
