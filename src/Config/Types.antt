-- ===== src/Config/Types.antt =====
-- The configuration records of internal/config/config.go. A Go int and a time.Duration (in
-- nanoseconds) are signed integers.
use apigateway_distributed_s.Base.{Bool, String, List, Dict}
use apigateway_distributed_s.Base.Int.{ℤ}

pub record TlsConfig : Type 0 where
  pub enabled : Bool
  pub cert_file : String
  pub key_file : String

pub record CorsConfig : Type 0 where
  pub enabled : Bool
  pub allowed_origins : List String
  pub allowed_methods : List String
  pub allowed_headers : List String

pub record ServerConfig : Type 0 where
  pub port : ℤ
  pub host : String
  pub read_timeout : ℤ
  pub write_timeout : ℤ
  pub idle_timeout : ℤ
  pub tls : TlsConfig
  pub cors : CorsConfig

pub record JwtConfig : Type 0 where
  pub secret : String
  pub expiration_time : ℤ
  pub refresh_time : ℤ
  pub issuer : String
  pub audience : String
  pub algorithm : String

pub record ApiKeyConfig : Type 0 where
  pub enabled : Bool
  pub header : String

pub record AuthConfig : Type 0 where
  pub jwt : JwtConfig
  pub api : ApiKeyConfig

pub record RateLimitRule : Type 0 where
  pub requests : ℤ
  pub window : ℤ
  pub burst : ℤ

pub record RateLimitConfig : Type 0 where
  pub enabled : Bool
  pub algorithm : String
  pub default : RateLimitRule
  pub per_user : Dict RateLimitRule
  pub per_service : Dict RateLimitRule

pub record CircuitBreakerConfig : Type 0 where
  pub enabled : Bool
  pub failure_threshold : ℤ
  pub recovery_timeout : ℤ
  pub half_open_requests : ℤ

pub record ServiceConfig : Type 0 where
  pub urls : List String
  pub load_balancer : String
  pub timeout : ℤ
  pub retries : ℤ
  pub circuit_breaker : CircuitBreakerConfig

pub record RoutingConfig : Type 0 where
  pub services : Dict ServiceConfig
  pub default : ServiceConfig

pub record CacheConfig : Type 0 where
  pub enabled : Bool
  pub ttl : ℤ
  pub max_size : ℤ

pub record DatabaseConfig : Type 0 where
  pub host : String
  pub port : ℤ
  pub user : String
  pub password : String
  pub db_name : String
  pub ssl_mode : String

pub record RedisConfig : Type 0 where
  pub host : String
  pub port : ℤ
  pub password : String
  pub db : ℤ
  pub pool_size : ℤ

pub record PrometheusConfig : Type 0 where
  pub enabled : Bool
  pub path : String
  pub port : ℤ

pub record TracingConfig : Type 0 where
  pub enabled : Bool
  pub jaeger : String

pub record MonitoringConfig : Type 0 where
  pub prometheus : PrometheusConfig
  pub tracing : TracingConfig

pub record LoggingConfig : Type 0 where
  pub level : String
  pub format : String
  pub output : String

pub record ProducerConfig : Type 0 where
  pub acks : String
  pub compression : String
  pub batch_size : ℤ
  pub linger_ms : ℤ

pub record KafkaConfig : Type 0 where
  pub brokers : List String
  pub topics : Dict String
  pub consumer_group : String
  pub producer_config : ProducerConfig

pub record RabbitMqConfig : Type 0 where
  pub url : String
  pub exchanges : Dict String
  pub queues : Dict String

pub record EventProcessingConfig : Type 0 where
  pub enabled : Bool
  pub provider : String
  pub kafka : KafkaConfig
  pub rabbit_mq : RabbitMqConfig

pub record Config : Type 0 where
  pub server : ServerConfig
  pub auth : AuthConfig
  pub rate_limit : RateLimitConfig
  pub routing : RoutingConfig
  pub cache : CacheConfig
  pub database : DatabaseConfig
  pub redis : RedisConfig
  pub monitoring : MonitoringConfig
  pub logging : LoggingConfig
  pub event_processing : EventProcessingConfig
