-- ===== src/Pricing/Types.antt =====
-- The data types of internal/pricing/service.go, over the type of prices.
use majordomo_gateway.Base.{Bool, List, Str, Dict}

pub record ModelPricing (R : Type 0) : Type 0 where
  pub input_price_per_million : R
  pub output_price_per_million : R
  pub cached_price_per_million : R

-- Raw JSON values are their bytes.
pub record Endpoint : Type 0 where
  pub provider : Str
  pub base_url : Str
  pub provider_model_id : Str
  pub region : Str
  pub zdr : Bool
  pub data_collection : Str
  pub request_defaults : Dict Str

pub record RouteEntry : Type 0 where
  pub provider : Str
  pub model : Str
  pub request_defaults : Dict Str

pub record ProviderSection (R : Type 0) : Type 0 where
  pub base_url : Str
  pub zdr : Bool
  pub data_collection : Str
  pub region : Str
  pub models : Dict (ModelPricing R)

pub record CatalogFile (R : Type 0) : Type 0 where
  pub providers : Dict (ProviderSection R)
  pub routes : Dict (List RouteEntry)

-- The maps of the service that a lookup reads.
pub record Service (R : Type 0) : Type 0 where
  pub pricing : Dict (ModelPricing R)
  pub by_provider : Dict (Dict (ModelPricing R))
  pub catalog : Dict (List Endpoint)
  pub aliases : Dict Str
