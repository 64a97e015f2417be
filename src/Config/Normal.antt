-- ===== src/Config/Normal.antt =====
-- What `normalized` guarantees to the rest of the client.
use logcenter_sdk_go.Base.{
  zero, suc, ℤ, pos, negsuc, ◌≡◌, refl, String, false, true, Option, none, some, ◌≢◌, arith,
  is_blank, leb_ℤ, ltb_ℤ, trim_space, Bool-cases, inl, inr, if◌then◌else◌,
}
use logcenter_sdk_go.Config.Defs.{Config, normalized, positive_or, non_blank_or, nonnil_or}

abbrev pub Positive : ℤ → Type 0
Positive z = ltb_ℤ (pos 0) z ≡ true

pub record IsNormal (c : Config) : Type 0 where
  pub environment : is_blank c.environment ≡ false
  pub service : is_blank c.service ≡ false
  pub timeout : Positive c.timeout
  pub send_timeout : Positive c.send_timeout
  pub buffer_size : Positive c.buffer_size
  pub batch_size : Positive c.batch_size
  pub batch-le-buffer : leb_ℤ c.batch_size c.buffer_size ≡ true
  pub flush_interval : Positive c.flush_interval
  pub retry_attempts : leb_ℤ (pos 0) c.retry_attempts ≡ true
  pub http_client : c.http_client ≢ none
  pub source : c.source ≢ none
  pub max_string_bytes : leb_ℤ (pos 0) c.max_string_bytes ≡ true
  pub max_metadata_bytes : Positive c.max_metadata_bytes
  pub max_data_bytes : Positive c.max_data_bytes
  pub max_audit_value_bytes : Positive c.max_audit_value_bytes
  pub max_event_bytes : Positive c.max_event_bytes
  pub max_batch_bytes : Positive c.max_batch_bytes

non_blank_or-blank :
    (value fallback : String)
    → is_blank fallback ≡ false
    → is_blank (non_blank_or value fallback) ≡ false
non_blank_or-blank value fallback h = elim (Bool-cases (is_blank value)) [
  | inl e ↦ rw e h
  | inr e ↦ rw e e
]

positive_or-Positive :
    (value fallback : ℤ) → Positive fallback → Positive (positive_or value fallback)
positive_or-Positive (pos zero) fallback h = h
positive_or-Positive (pos (suc n)) fallback h = ground arith
positive_or-Positive (negsuc n) fallback h = ground arith

smaller :
    (b n : ℤ)
    → Positive b
    → Positive n
    → Positive (if ltb_ℤ b n then b else n) × (leb_ℤ (if ltb_ℤ b n then b else n) b ≡ true)
smaller (pos b) (pos n) h k = ground arith
smaller (negsuc b) n h k = absurd (ground arith)
smaller (pos b) (negsuc n) h k = absurd (ground arith)

nonnegative : (z : ℤ) → leb_ℤ (pos 0) (if ltb_ℤ z (pos 0) then pos 0 else z) ≡ true
nonnegative (pos n) = ground arith
nonnegative (negsuc n) = ground arith

unlimited : (z : ℤ) → leb_ℤ (pos 0) (positive_or z (pos 0)) ≡ true
unlimited (pos n) = ground arith
unlimited (negsuc n) = ground arith

nonnil_or-ne-none {ℓ} : {A : Type ℓ} (o : Option A) (a : A) → nonnil_or o a ≢ none
nonnil_or-ne-none none a = cc
nonnil_or-ne-none (some x) a = cc

-- Whatever the caller sets, the normalised configuration has a batch size from 1 to the buffer size, a
-- positive timeout, send timeout and flush interval, positive limits for metadata, data, audit values,
-- events and batches, a limit for strings and a number of retries that are not negative, an HTTP client and
-- a source, and names for service and environment that are not blank. Nothing is said of the timeouts of
-- `Flush` and `Close`.
pub normalized-IsNormal :
    (runtime_version : String) (c : Config) → IsNormal (normalized runtime_version c)
unfolding normalized trim_space
normalized-IsNormal runtime_version c = record {
  environment = non_blank_or-blank c.environment "development" refl;
  service = non_blank_or-blank c.service "go-service" refl;
  timeout = positive_or-Positive c.timeout _ refl;
  send_timeout = positive_or-Positive c.send_timeout _ (positive_or-Positive c.timeout _ refl);
  buffer_size = positive_or-Positive c.buffer_size _ refl;
  batch_size = (smaller (positive_or c.buffer_size _) (positive_or c.batch_size _) b n).0;
  batch-le-buffer = (smaller (positive_or c.buffer_size _) (positive_or c.batch_size _) b n).1;
  flush_interval = positive_or-Positive c.flush_interval _ refl;
  retry_attempts = nonnegative c.retry_attempts;
  http_client = nonnil_or-ne-none c.http_client _;
  source = nonnil_or-ne-none c.source _;
  max_string_bytes = unlimited c.max_string_bytes;
  max_metadata_bytes = positive_or-Positive c.max_metadata_bytes _ refl;
  max_data_bytes = positive_or-Positive c.max_data_bytes _ refl;
  max_audit_value_bytes = positive_or-Positive c.max_audit_value_bytes _ refl;
  max_event_bytes = positive_or-Positive c.max_event_bytes _ refl;
  max_batch_bytes = positive_or-Positive c.max_batch_bytes _ refl;
}
  where
    b : Positive (positive_or c.buffer_size (pos 1000))
    b = positive_or-Positive c.buffer_size _ refl

    n : Positive (positive_or c.batch_size (pos 100))
    n = positive_or-Positive c.batch_size _ refl

positive_or_self : (value fallback : ℤ) → Positive value → positive_or value fallback ≡ value
positive_or_self (pos n) fallback h = ground arith
positive_or_self (negsuc n) fallback h = absurd (ground arith)

unlimited_self : (z : ℤ) → leb_ℤ (pos 0) z ≡ true → positive_or z (pos 0) ≡ z
unlimited_self (pos n) h = ground arith
unlimited_self (negsuc n) h = absurd (ground arith)

nonnil_or_self {ℓ} : {A : Type ℓ} (o : Option A) (a : A) → o ≢ none → nonnil_or o a ≡ o
nonnil_or_self none a h = absurd (h refl)
nonnil_or_self (some x) a h = refl

smaller_self : (b n : ℤ) → leb_ℤ n b ≡ true → (if ltb_ℤ b n then b else n) ≡ n
smaller_self (pos b) (pos n) h = ground arith
smaller_self (pos b) (negsuc n) h = ground arith
smaller_self (negsuc b) (pos n) h = absurd (ground arith)
smaller_self (negsuc b) (negsuc n) h = ground arith

retries_self : (z : ℤ) → leb_ℤ (pos 0) z ≡ true → (if ltb_ℤ z (pos 0) then pos 0 else z) ≡ z
retries_self (pos n) h = ground arith
retries_self (negsuc n) h = absurd (ground arith)

non_blank_or_self :
    (value fallback : String) → is_blank value ≡ false → non_blank_or value fallback ≡ value
non_blank_or_self value fallback h = rw h

-- A normalised configuration is a fixed point, up to its endpoint: cutting the slashes at its end can
-- lay a space bare that a second normalisation would cut.
pub normalized_fixed :
    (runtime_version : String) (c : Config)
    → IsNormal c
    → normalized runtime_version c ≡ record c { endpoint = (normalized runtime_version c).endpoint }
unfolding normalized
normalized_fixed runtime_version c n = rw (
  non_blank_or_self c.environment _ n.environment,
  non_blank_or_self c.service _ n.service,
  positive_or_self c.timeout _ n.timeout,
  positive_or_self c.send_timeout _ n.send_timeout,
  positive_or_self c.buffer_size _ n.buffer_size,
  positive_or_self c.batch_size _ n.batch_size,
  smaller_self c.buffer_size c.batch_size n.batch-le-buffer,
  positive_or_self c.flush_interval _ n.flush_interval,
  retries_self c.retry_attempts n.retry_attempts,
  nonnil_or_self c.http_client _ n.http_client,
  nonnil_or_self c.source _ n.source,
  unlimited_self c.max_string_bytes n.max_string_bytes,
  positive_or_self c.max_metadata_bytes _ n.max_metadata_bytes,
  positive_or_self c.max_data_bytes _ n.max_data_bytes,
  positive_or_self c.max_audit_value_bytes _ n.max_audit_value_bytes,
  positive_or_self c.max_event_bytes _ n.max_event_bytes,
  positive_or_self c.max_batch_bytes _ n.max_batch_bytes,
)
