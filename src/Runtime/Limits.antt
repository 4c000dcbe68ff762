-- ===== src/Runtime/Limits.antt =====
-- `getGatewayRuntimeLimits` of runtime-limits.js: what the environment may set.
use magento2_chat_ai.JsNumber.{JsNumber, number_from_env, number_from_env_bounds}
use magento2_chat_ai.Prelude.{ℕ, ◌-◌, ◌≤◌, max, arith}

-- The variables of the environment that are read, in the order of the source.
pub record Environment : Type 0 where
  pub max_messages_per_minute : JsNumber
  pub max_product_page_requests_per_minute : JsNumber
  pub max_address_updates_per_minute : JsNumber
  pub max_address_updates_per_hour : JsNumber
  pub max_model_history_messages : JsNumber
  pub max_image_bytes : JsNumber
  pub max_images_per_message : JsNumber
  pub max_ws_payload_bytes : JsNumber
  pub max_concurrent_model_requests : JsNumber
  pub max_queue_depth : JsNumber
  pub max_queue_wait_ms : JsNumber
  pub model_lease_ms : JsNumber
  pub address_update_lock_ms : JsNumber

pub record Limits : Type 0 where
  pub max_messages_per_minute : ℕ
  pub max_product_page_requests_per_minute : ℕ
  pub max_address_updates_per_minute : ℕ
  pub max_address_updates_per_hour : ℕ
  pub max_model_history_messages : ℕ
  pub max_image_bytes : ℕ
  pub max_images_per_message : ℕ
  pub max_web_socket_payload_bytes : ℕ
  pub max_web_socket_encoded_image_bytes : ℕ
  pub max_concurrent_model_requests : ℕ
  pub max_queue_depth : ℕ
  pub max_queue_wait_ms : ℕ
  pub model_lease_ms : ℕ
  pub address_update_lock_ms : ℕ

unfoldable pub read_positive_int : JsNumber → ℕ → ℕ → ℕ
unfolding number_from_env
read_positive_int value fallback hi = number_from_env value fallback 1 hi

unfoldable pub get_gateway_runtime_limits : Environment → Limits
unfolding read_positive_int
get_gateway_runtime_limits env =
    let payload = read_positive_int env.max_ws_payload_bytes 8388608 12582912 in
    record {
      max_messages_per_minute = read_positive_int env.max_messages_per_minute 15 120;
      max_product_page_requests_per_minute =
          read_positive_int env.max_product_page_requests_per_minute 30 120;
      max_address_updates_per_minute = read_positive_int env.max_address_updates_per_minute 5 30;
      max_address_updates_per_hour = read_positive_int env.max_address_updates_per_hour 20 200;
      max_model_history_messages = read_positive_int env.max_model_history_messages 16 40;
      max_image_bytes = read_positive_int env.max_image_bytes 4194304 16777216;
      max_images_per_message = read_positive_int env.max_images_per_message 4 4;
      max_web_socket_payload_bytes = payload;
      max_web_socket_encoded_image_bytes = max 524288 (payload - 2097152);
      max_concurrent_model_requests = read_positive_int env.max_concurrent_model_requests 32 1000;
      max_queue_depth = read_positive_int env.max_queue_depth 200 10000;
      max_queue_wait_ms = read_positive_int env.max_queue_wait_ms 30000 300000;
      model_lease_ms = read_positive_int env.model_lease_ms 90000 600000;
      address_update_lock_ms = read_positive_int env.address_update_lock_ms 20000 60000;
    }

-- The limits lie within what the runtime can count with: its own clamps of a lock, of a lease, of
-- the queue and of the concurrency change none of them from above, and every rate is positive.
pub record IsServable (l : Limits) : Type 0 where
  pub rates :
      (1 ≤ l.max_messages_per_minute)
      × (1 ≤ l.max_product_page_requests_per_minute)
      × (1 ≤ l.max_address_updates_per_minute)
      × (1 ≤ l.max_address_updates_per_hour)
  pub lock : (1 ≤ l.address_update_lock_ms) × (l.address_update_lock_ms ≤ 60000)
  pub lease : (1 ≤ l.model_lease_ms) × (l.model_lease_ms ≤ 600000)
  pub queue : (1 ≤ l.max_queue_depth) × (l.max_queue_depth ≤ 100000)
  pub wait : (1 ≤ l.max_queue_wait_ms) × (l.max_queue_wait_ms ≤ 300000)
  pub concurrency :
      (1 ≤ l.max_concurrent_model_requests) × (l.max_concurrent_model_requests ≤ 10000)
  pub images :
      (524288 ≤ l.max_web_socket_encoded_image_bytes)
      × (l.max_web_socket_encoded_image_bytes ≤ max 524288 l.max_web_socket_payload_bytes)

-- Whatever the environment holds, every limit is positive and within what the runtime accepts, and
-- the bytes left for images are at least 512 KiB and at most a payload, or 512 KiB.
pub limits-IsServable : (env : Environment) → IsServable (get_gateway_runtime_limits env)
unfolding get_gateway_runtime_limits read_positive_int
limits-IsServable env = record {
  rates = (
    (number_from_env_bounds env.max_messages_per_minute 15 1 120 (omega arith) (omega arith)).0,
    (number_from_env_bounds env.max_product_page_requests_per_minute 30 1 120 (omega arith)
        (omega arith)).0,
    (number_from_env_bounds env.max_address_updates_per_minute 5 1 30 (omega arith)
        (omega arith)).0,
    (number_from_env_bounds env.max_address_updates_per_hour 20 1 200 (omega arith)
        (omega arith)).0,
  );
  lock =
      number_from_env_bounds env.address_update_lock_ms 20000 1 60000 (omega arith) (omega arith);
  lease = number_from_env_bounds env.model_lease_ms 90000 1 600000 (omega arith) (omega arith);
  queue =
      let b = number_from_env_bounds env.max_queue_depth 200 1 10000 (omega arith) (omega arith) in
      (b.0, omega (arith, b.1));
  wait = number_from_env_bounds env.max_queue_wait_ms 30000 1 300000 (omega arith) (omega arith);
  concurrency =
      let b =
        number_from_env_bounds env.max_concurrent_model_requests 32 1 1000 (omega arith)
          (omega arith) in
      (b.0, omega (arith, b.1));
  images = (omega arith, omega arith);
}
