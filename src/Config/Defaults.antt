-- ===== src/Config/Defaults.antt =====
-- All fields of `Settings` in app/config.py, and their values where the environment and .env give
-- none.
use seans.Prelude.{ℕ, String}
use seans.Config.{Settings, JacredSource}

pub record AppSettings : Type 0 where
  pub database_url : String
  pub database_url_sync : String
  pub test_database_url : String
  pub jwt_secret : String
  pub jwt_ttl_days : ℕ
  pub s3_endpoint : String
  pub s3_bucket : String
  pub s3_access_key : String
  pub s3_secret_key : String
  pub s3_region : String
  pub kp_api_token : String
  pub tmdb_api_token : String
  pub jacred_url : String
  pub jacred_api_key : String
  pub jacred_external_url : String
  pub jacred_external_api_key : String
  pub sonarr_url : String
  pub sonarr_api_key : String
  pub radarr_url : String
  pub radarr_api_key : String
  pub arr_cache_ttl_seconds : ℕ
  pub arr_episode_cache_ttl_seconds : ℕ
  pub worker_reg_secret : String
  pub default_quota_bytes : ℕ
  pub lease_minutes : ℕ
  pub heartbeat_max_gap_minutes : ℕ

abbrev pub defaults : AppSettings
defaults = record {
  database_url = "postgresql+asyncpg://seans:seans@db:5432/seans";
  database_url_sync = "postgresql+psycopg2://seans:seans@db:5432/seans";
  test_database_url = "postgresql+asyncpg://seans:seans@db:5432/seans_test";
  jwt_secret = "change-me";
  jwt_ttl_days = 7;
  s3_endpoint = "https://s3.buckets.ru/";
  s3_bucket = "seans";
  s3_access_key = "";
  s3_secret_key = "";
  s3_region = "ru-1";
  kp_api_token = "";
  tmdb_api_token = "";
  jacred_url = "http://localhost:9117";
  jacred_api_key = "";
  jacred_external_url = "";
  jacred_external_api_key = "";
  sonarr_url = "";
  sonarr_api_key = "";
  radarr_url = "";
  radarr_api_key = "";
  arr_cache_ttl_seconds = 300;
  arr_episode_cache_ttl_seconds = 1800;
  worker_reg_secret = "change-me";
  default_quota_bytes = 10737418240;
  lease_minutes = 10;
  heartbeat_max_gap_minutes = 10;
}

-- The settings as the handlers of tasks and accounts see them, and those that the validator looks at.
abbrev pub handler_settings : AppSettings → Settings
handler_settings s = record {
  worker_reg_secret = s.worker_reg_secret;
  lease_minutes = s.lease_minutes;
  jwt_ttl_days = s.jwt_ttl_days;
}

abbrev pub jacred_source : AppSettings → JacredSource
jacred_source s = record { jacred_url = s.jacred_url; jacred_api_key = s.jacred_api_key }
