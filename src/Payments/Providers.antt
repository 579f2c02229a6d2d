-- ===== src/Payments/Providers.antt =====
-- services/payments/app/providers.py: the provider interface, cash on delivery, and the stand-in for
-- an online provider. Stripe's own behaviour is a value of the interface that the model does not fix.
use food_delivery_system.Base.{ℕ, Bool, true, false, Option, none, some, String}
use food_delivery_system.Payments.Models.{Provider, cod, card, IdempotencyKey, Reference, pi}

-- `error` is the status that an exception of the provider degrades to.
pub data ProviderStatus : Type 0 where
  error to_collect void authorized paid refunded : ProviderStatus
  open_status : String → ProviderStatus

pub record ProviderResult : Type 0 where
  pub ok : Bool
  pub reference : Option Reference
  pub status : ProviderStatus
  pub checkout_url : Option String

-- The protocol `PaymentProvider`; what a call answers is a function of its arguments here.
pub record PaymentProvider : Type 0 where
  pub name : Provider
  pub authorize : ℕ → IdempotencyKey → ℕ → ProviderResult
  pub verify : Option Reference → ProviderResult
  pub refund : Option Reference → ℕ → ProviderResult

abbrev pub cod_provider : PaymentProvider
cod_provider = record {
  name = cod;
  authorize = λ amount key order_id. record {
    ok = true;
    reference = none;
    status = to_collect;
    checkout_url = none;
  };
  verify = λ ref. record { ok = false; reference = ref; status = to_collect; checkout_url = none };
  refund = λ ref amount. record { ok = true; reference = ref; status = void; checkout_url = none };
}

abbrev pub card_provider : PaymentProvider
card_provider = record {
  name = card;
  authorize = λ amount key order_id. record {
    ok = true;
    reference = some (pi key);
    status = authorized;
    checkout_url = none;
  };
  verify = λ ref. record { ok = true; reference = ref; status = paid; checkout_url = none };
  refund =
      λ ref amount. record { ok = true; reference = ref; status = refunded; checkout_url = none };
}

-- `provider_for`: Stripe for a card where a secret key is configured.
abbrev pub provider_for : Option PaymentProvider → Provider → PaymentProvider
provider_for stripe cod = cod_provider
provider_for none card = card_provider
provider_for (some stripe) card = stripe
