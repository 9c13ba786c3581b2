-- ===== src/Tests/Services.antt =====
-- The theorems on the configuration, the roles and the circuit breakers, with libraries that do
-- as little as they are documented to.
use mathlib.Core.List.{Memᴰ}
use apigateway_distributed_s.Base.{
  Unique, lookup, ℕ, ◌≡◌, ◌≢◌, refl, ◌↔◌, true, false, Option, none, some, List, [], ◌∷◌, String,
  All,
}
use apigateway_distributed_s.Base.Int.{pos}
use apigateway_distributed_s.Config.Types.{Config, ServiceConfig, CircuitBreakerConfig}
use apigateway_distributed_s.Config.Validate.{
  validate_config, IsUsable, validate_config-eq-none_iff,
}
use apigateway_distributed_s.Config.Manager.{Viper, new_manager, load, get, reload}
use apigateway_distributed_s.Config.Manager.Loads.{reloads, get-reloads-IsUsable}
use apigateway_distributed_s.Auth.Jwt.{Claims}
use apigateway_distributed_s.Circuit.Breaker.{
  State, closed, half_open, opened, Outcome, returned, state, GoBreaker, no_counts,
}
use apigateway_distributed_s.Circuit.Manager.{Manager, get_stats, health_check}
use apigateway_distributed_s.Circuit.Manager.Safety.{in_state, get_stats-in_state}
use apigateway_distributed_s.Circuit.Manager.Health.{HasOpen, health_check-eq-none_iff}

abbrev pub breaker_off : CircuitBreakerConfig
breaker_off = record {
  enabled = false;
  failure_threshold = pos 5;
  recovery_timeout = pos 0;
  half_open_requests = pos 1;
}

abbrev pub service : ServiceConfig
service = record {
  urls = "http://a" ∷ [];
  load_balancer = "round_robin";
  timeout = pos 0;
  retries = pos 0;
  circuit_breaker = breaker_off;
}

abbrev pub sample : Config
sample = record {
  server = record {
    port = pos 8080;
    host = "0.0.0.0";
    read_timeout = pos 0;
    write_timeout = pos 0;
    idle_timeout = pos 0;
    tls = record { enabled = false; cert_file = ""; key_file = "" };
    cors = record {
      enabled = false;
      allowed_origins = [];
      allowed_methods = [];
      allowed_headers = [];
    };
  };
  auth = record {
    jwt = record {
      secret = "s";
      expiration_time = pos 3600;
      refresh_time = pos 600;
      issuer = "i";
      audience = "a";
      algorithm = "HS256";
    };
    api = record { enabled = false; header = "X-API-Key" };
  };
  rate_limit = record {
    enabled = true;
    algorithm = "token_bucket";
    default = record { requests = pos 100; window = pos 60; burst = pos 10 };
    per_user = [];
    per_service = [];
  };
  routing = record { services = []; default = service };
  cache = record { enabled = true; ttl = pos 300; max_size = pos 1000 };
  database = record {
    host = "localhost";
    port = pos 5432;
    user = "u";
    password = "p";
    db_name = "d";
    ssl_mode = "disable";
  };
  redis = record {
    host = "localhost";
    port = pos 6379;
    password = "";
    db = pos 0;
    pool_size = pos 10;
  };
  monitoring = record {
    prometheus = record { enabled = true; path = "/metrics"; port = pos 9090 };
    tracing = record { enabled = false; jaeger = "" };
  };
  logging = record { level = "info"; format = "json"; output = "stdout" };
  event_processing = record {
    enabled = false;
    provider = "kafka";
    kafka = record {
      brokers = [];
      topics = [];
      consumer_group = "";
      producer_config = record {
        acks = "all";
        compression = "none";
        batch_size = pos 0;
        linger_ms = pos 0;
      };
    };
    rabbit_mq = record { url = ""; exchanges = []; queues = [] };
  };
}

-- A file is the configuration that it holds, if it can be read, and the library's state is the
-- path in use.
abbrev files : Viper String (Option Config)
files = record {
  new = "";
  set_default = λ key value v. v;
  set_config_file = λ path v. path;
  set_config_type = λ kind v. v;
  automatic_env = λ v. v;
  read_in_config = λ f v. (v, elim f [ none ↦ false | some c ↦ true ]);
  unmarshal = λ f v. f;
  config_file_used = λ v. v;
  used-set_config_file = λ path v. refl;
  used-set_config_type = λ kind v. refl;
  used-automatic_env = λ v. refl;
  used-read_in_config = λ f v. refl;
}

validate_config-eq-none_iff_example : (validate_config sample ≡ none) ↔ IsUsable sample
validate_config-eq-none_iff_example = validate_config-eq-none_iff sample

-- A good file, a file that is gone, and the good one again.
abbrev states : List (Option Config)
states = none ∷ some sample ∷ []

sample_kept :
    get files (reloads files states (load files (some sample) (new_manager files) "c.yaml").0)
    ≡ some sample
unfolding get reloads reload load new_manager validate_config
sample_kept = refl

get-reloads-IsUsable_example : IsUsable sample
get-reloads-IsUsable_example =
    get-reloads-IsUsable files (some sample) "c.yaml" states sample sample_kept

abbrev ann : Claims
ann = record {
  user_id = "1";
  username = "ann";
  email = "ann@x";
  roles = "admin" ∷ "user" ∷ [];
  metadata = [];
  expires_at = some (pos 4600);
  issued_at = some (pos 1000);
  not_before = some (pos 1000);
  issuer = "i";
  audience = "a" ∷ [];
  subject = "1";
}

-- A breaker of the library that is its state, and runs what it is given unless it is open. The
-- protected functions count their runs.
abbrev run_unless : State → (ℕ → ℕ × Outcome String String) → ℕ → State × ℕ × Outcome String String
run_unless opened fn w = (opened, w, returned "" (some "open"))
run_unless closed fn w = let (w', out) = fn w in (closed, w', out)
run_unless half_open fn w = let (w', out) = fn w in (closed, w', out)

abbrev name_of : State → String
name_of closed = "closed"
name_of half_open = "half-open"
name_of opened = "open"

abbrev library : GoBreaker State ℕ String String
library = record {
  new_circuit_breaker = λ settings. closed;
  execute = run_unless;
  state = λ s. s;
  counts = λ s. no_counts;
  state_string = name_of;
  nil = "";
  string-closed = refl;
  string-half_open = refl;
  string-opened = refl;
}

abbrev circuits : Manager State
circuits = record {
  breakers =
      ("users", record { breaker = some opened })
      ∷ ("orders", record { breaker = some closed })
      ∷ ("files", record { breaker = none })
      ∷ [];
}

circuits-Unique : Unique circuits.breakers
unfolding lookup
circuits-Unique = (refl, (refl, (refl, tt)))

get_stats-in_state_example :
    let stats = get_stats library circuits in
    (stats.total_breakers ≡ 3)
    × (stats.opened ≡ in_state library opened circuits)
    × (stats.half_open ≡ in_state library half_open circuits)
    × (stats.closed ≡ in_state library closed circuits)
get_stats-in_state_example = get_stats-in_state library circuits circuits-Unique

health_check-eq-none_iff_example :
    ((health_check library circuits ≡ none)
      ↔ All (λ e. state library e.1 ≢ opened) circuits.breakers)
    × ((names : List String) (name : String)
        → health_check library circuits ≡ some names
        → Memᴰ name names ↔ HasOpen library name circuits.breakers)
health_check-eq-none_iff_example = health_check-eq-none_iff library circuits
