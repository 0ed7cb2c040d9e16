-- ===== src/Gateway/Config.antt =====
-- api-gateway/src/config/gateway.config.ts.
use study_microsservices_nod.Base.{ℕ, String, Option, none, some, ◌=ₛ◌, if◌then◌else◌}

-- The keys of `serviceConfig`.
pub data ServiceName : Type 0 where
  users products checkout payments : ServiceName

abbrev pub name_of : ServiceName → String
name_of users = "users"
name_of products = "products"
name_of checkout = "checkout"
name_of payments = "payments"

-- `process.env`, of which the gateway reads the addresses of the services.
pub record ServiceUrls : Type 0 where
  pub users_service_url : Option String
  pub products_service_url : Option String
  pub checkout_service_url : Option String
  pub payments_service_url : Option String

pub record ServiceConfig : Type 0 where
  pub url : String
  pub timeout : ℕ

-- `variable || text`, which also passes over the empty text.
pub or_default : Option String → String → String
or_default none d = d
or_default (some s) d = if s =ₛ "" then d else s

unfoldable pub service_config : ServiceUrls → ServiceName → ServiceConfig
unfolding or_default
service_config env users = record {
  url = or_default env.users_service_url "http://localhost:3001";
  timeout = 10000;
}
service_config env products = record {
  url = or_default env.products_service_url "http://localhost:3002";
  timeout = 10000;
}
service_config env checkout = record {
  url = or_default env.checkout_service_url "http://localhost:3003";
  timeout = 10000;
}
service_config env payments = record {
  url = or_default env.payments_service_url "http://localhost:3004";
  timeout = 10000;
}
