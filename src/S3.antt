-- ===== src/S3.antt =====
-- app/services/s3.py: what it hands to boto3, whose `generate_presigned_url` and `head_object` are
-- parameters; and the check of the bucket in app/routers/dev.py, with the answers of the bucket to a
-- PUT and a GET.
use seans.Prelude.{ℕ, String, not, ◌||◌, ◌==◌, str_eq, concat, [], ◌∷◌}
use seans.Prelude.Decimal.{str}
use seans.Prelude.Int.{pos}
use seans.Http.{Action, http, raise_if, pure, commit, gets, ◌>>=◌, ◌>>◌}
use seans.Config.Defaults.{AppSettings}

-- The arguments of `boto3.client("s3", …)`, with those of `_config`.
pub record Client : Type 0 where
  pub endpoint_url : String
  pub aws_access_key_id : String
  pub aws_secret_access_key : String
  pub region_name : String
  pub signature_version : String
  pub addressing_style : String
  pub max_attempts : ℕ

unfoldable pub get_s3_client : AppSettings → Client
get_s3_client settings = record {
  endpoint_url = settings.s3_endpoint;
  aws_access_key_id = settings.s3_access_key;
  aws_secret_access_key = settings.s3_secret_key;
  region_name = settings.s3_region;
  signature_version = "s3v4";
  addressing_style = "path";
  max_attempts = 3;
}

-- A method, the bucket, the key and the seconds for which the link serves.
pub record Presign : Type 0 where
  pub method : String
  pub bucket : String
  pub key : String
  pub expires_in : ℕ

-- boto3, with the answers of a bucket whose contents are `Store`: the status of a PUT and what it
-- leaves, the status and the body of a GET.
pub record Boto3 (Store : Type 0) : Type 0 where
  pub generate_presigned_url : Client → Presign → String
  pub put : String → String → Store → ℕ × Store
  pub get : String → Store → ℕ × String
  pub delete_object : Client → String → String → Store → Store

-- The times of the links where the caller gives none.
abbrev pub get_expires_in : ℕ
get_expires_in = 86400

abbrev pub put_expires_in : ℕ
put_expires_in = 21600

abbrev pub test_key : String
test_key = "dev/s3-check.txt"

abbrev pub test_body : String
test_body = "seans s3 check"

module _ {Store : Type 0} (boto3 : Boto3 Store) (settings : AppSettings) where
  unfoldable pub presign_get : String → ℕ → String
  unfolding get_s3_client
  presign_get s3_key expires_in = boto3.generate_presigned_url (get_s3_client settings) (record {
    method = "get_object";
    bucket = settings.s3_bucket;
    key = s3_key;
    expires_in = expires_in;
  })

  unfoldable pub presign_put : String → ℕ → String
  unfolding get_s3_client
  presign_put s3_key expires_in = boto3.generate_presigned_url (get_s3_client settings) (record {
    method = "put_object";
    bucket = settings.s3_bucket;
    key = s3_key;
    expires_in = expires_in;
  })

  -- `await http.put(put_url, content=TEST_BODY)`
  abbrev pub put_test : String → Action Store ℕ
  put_test url = do
    status ← gets (λ s. (boto3.put url test_body s).0)
    commit (λ s. (boto3.put url test_body s).1)
    pure status

  unfoldable pub s3_check : Action Store (Unit {0})
  unfolding presign_get presign_put get_s3_client
  s3_check = do
    put_status ← put_test (presign_put test_key put_expires_in)
    raise_if (not (put_status == 200))
        (http 500 (concat ("PUT failed: " ∷ str (pos put_status) ∷ [])))
    resp ← gets (boto3.get (presign_get test_key get_expires_in))
    raise_if (not (resp.0 == 200) || not (str_eq resp.1 test_body))
        (http 500 "GET roundtrip failed")
    commit (boto3.delete_object (get_s3_client settings) settings.s3_bucket test_key)
