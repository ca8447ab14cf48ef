-- ===== src/Tests/Prices.antt =====
-- A new price of a product that had another before.
use kasirinaja.Prelude.{pos, none, some, [], ◌∷◌}
use kasirinaja.Domain.{Product, ProductUpdateRequest, ProductPriceHistory}
use kasirinaja.Memory.State.{Store}
use kasirinaja.Memory.Catalog.{update_product as store_update_product}
use kasirinaja.Service.Context.{Context}
use kasirinaja.Service.Texts.{Texts}
use kasirinaja.Service.Products.{update_product}
use kasirinaja.Tests.Fixed.{Fixed, fixed}
use kasirinaja.Tests.Shop.{outside, milk, shop}

abbrev owner : Context
owner = record {
  actor = some (record { username = "owner"; role = "admin" });
  default_store_id = "main";
}

abbrev plain : Texts Fixed
plain = record {
  parse_date = λ text. none;
  show_date = λ at. "2025-01-02";
  show_moment = λ at. "2025-01-02 03:04";
  show_rate = λ rate. "0.2000";
  base64 = λ codes. "";
}

-- The price of milk rose from 900 to 1000.
abbrev risen : ProductPriceHistory
risen = record {
  id = "ph";
  sku = "MILK";
  old_price_cents = pos 900;
  new_price_cents = pos 1000;
  changed_by = "owner";
  changed_at = 50;
}

abbrev risen_shop : Store Fixed
risen_shop = record shop { price_history_by_sku = ("MILK", risen ∷ []) ∷ [] }

abbrev dearer : ProductUpdateRequest Fixed
dearer = record {
  name = none;
  category = none;
  price_cents = some (pos 1200);
  margin_rate = none;
  active = none;
}

abbrev dear_milk : Product Fixed
dear_milk = record milk { price_cents = pos 1200 }

abbrev dear_shop : Store Fixed
dear_shop = (update_product owner plain outside "milk" dearer risen_shop).1
