-- ===== src/Payment/Invoice.antt =====
-- nowpayments.go: `CreateInvoice`. JSON texts and the provider's service are parameters, and a price is of
-- a type of its own.
use ol1n_super_app.Base.{
  ℕ, ◌/◌, Bool, not, Option, none, some, List, [], ◌∷◌, ◌++◌, ◌==◌, if◌then◌else◌, Bytes, codes,
}

pub record Client (P : Type 0) : Type 0 where
  pub api_key : Bytes
  pub api_base : Bytes
  pub success_url : Bytes
  pub cancel_url : Bytes
  pub ipn_url : Bytes
  pub price_usd : P

pub record InvoiceRequest (P : Type 0) : Type 0 where
  pub price_amount : P
  pub price_currency : Bytes
  pub order_id : Bytes
  pub order_description : Bytes
  pub success_url : Bytes
  pub cancel_url : Bytes
  pub ipn_callback_url : Bytes

pub record InvoiceResponse : Type 0 where
  pub id : Bytes
  pub invoice_url : Bytes
  pub status : Bytes

-- A POST request.
pub record Posted : Type 0 where
  pub url : Bytes
  pub headers : List (Bytes × Bytes)
  pub body : Bytes

-- `valid_url`: `NewRequestWithContext` takes it. `exchange` is `none` for a request that fails.
pub record Service (P : Type 0) : Type 0 where
  pub marshal : InvoiceRequest P → Option Bytes
  pub valid_url : Bytes → Bool
  pub exchange : Posted → Option (ℕ × Bytes)
  pub unmarshal : Bytes → Option InvoiceResponse

pub data InvoiceError : Type 0 where
  bad_url unreachable : InvoiceError
  bad_status : ℕ → Bytes → InvoiceError
  bad_body : Bytes → InvoiceError

pub data Invoice : Type 0 where
  made : InvoiceResponse → Invoice
  failed : InvoiceError → Invoice

abbrev pub decoded : Bytes → Option InvoiceResponse → Invoice
decoded raw none = failed (bad_body raw)
decoded raw (some out) = made out

module _ {P : Type 0} (client : Client P) (service : Service P) where
  abbrev pub request_of : Bytes → Bytes → InvoiceRequest P
  request_of job_id description = record {
    price_amount = client.price_usd;
    price_currency = codes "usd";
    order_id = job_id;
    order_description = description;
    success_url = client.success_url;
    cancel_url = client.cancel_url;
    ipn_callback_url = client.ipn_url;
  }

  -- The error of `Marshal` is dropped, and the body is empty then.
  abbrev text_of : Option Bytes → Bytes
  text_of none = []
  text_of (some text) = text

  abbrev pub posted : Bytes → Bytes → Posted
  posted job_id description = record {
    url = client.api_base ++ codes "/invoice";
    headers =
        (codes "Content-Type", codes "application/json") ∷ (codes "x-api-key", client.api_key) ∷ [];
    body = text_of (service.marshal (request_of job_id description));
  }

  abbrev pub replied : Option (ℕ × Bytes) → Invoice
  replied none = failed unreachable
  replied (some (status, raw)) =
      if not (status / 100 == 2)
      then failed (bad_status status raw)
      else decoded raw (service.unmarshal raw)

  unfoldable pub create_invoice : Bytes → Bytes → Invoice
  create_invoice job_id description =
      if not (service.valid_url (client.api_base ++ codes "/invoice"))
      then failed bad_url
      else replied (service.exchange (posted job_id description))

  abbrev pub id_of : Invoice → Option Bytes
  id_of (made out) = some out.id
  id_of (failed e) = none

  -- What `initUpload` keeps of it.
  abbrev pub invoice_id : Bytes → Bytes → Option Bytes
  unfolding create_invoice
  invoice_id job_id description = id_of (create_invoice job_id description)
