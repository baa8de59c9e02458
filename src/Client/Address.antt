-- ===== src/Client/Address.antt =====
-- src/core/client.ts: resolveUrl, tryResolvePartition, logUrl and the head of _fireFirstAttempt: where a
-- request goes and the partition that it counts for. The URL parser is the platform's; it is a parameter
-- that answers a text and its base with nothing where `new URL` throws.
use vereda.Common.{
  ℕ, ◌≡◌, refl, sym, ap, ◌∙◌, Bool, Option, none, some, [], ◌∷◌, if◌then◌else◌, arith,
}
use vereda.Common.Text.{Text}
use vereda.Redact.{redact_url}

pub record Url : Type 0 where
  pub href : Text  -- toString()
  pub host : Text

-- `new URL(url)` and `new URL(url, base)`.
abbrev pub Parser : Type 0
Parser = Text → Option Text → Option Url

abbrev pub href_of : Option Url → Option Text
href_of none = none
href_of (some u) = some (u.href)

abbrev pub host_of : Option Url → Option Text
host_of none = none
host_of (some u) = some (u.host)

-- The base is the configuration's `baseUrl`; an empty one is none. Nothing is an exception.
unfoldable pub resolve_url : Parser → (base : Option Text) → Text → Option Text
resolve_url parser none url = some url
resolve_url parser (some []) url = some url
resolve_url parser (some (c ∷ base)) url = href_of (parser url (some (c ∷ base)))

-- `new URL(this.resolveUrl(url)).host`.
abbrev pub host_at : Parser → Option Text → Option Text
host_at parser none = none
host_at parser (some full) = host_of (parser full none)

unfoldable pub try_resolve_partition :
    Parser → (base : Option Text) → Text → (partition : Option Text) → Option Text
try_resolve_partition parser base url (some p) = some p
try_resolve_partition parser base url none = host_at parser (resolve_url parser base url)

-- What the first attempt sends to, and its partition; nothing is the ConfigurationError.
pub record Address : Type 0 where
  pub full_url : Text
  pub partition_name : Text

abbrev pub named : Text → Option Text → Option Address
named full none = none
named full (some p) = some (record { full_url = full; partition_name = p })

abbrev pub partition_at : Parser → Text → (partition : Option Text) → Option Address
partition_at parser full (some p) = named full (some p)
partition_at parser full none = named full (host_of (parser full none))

abbrev pub address_at : Parser → Option Text → (partition : Option Text) → Option Address
address_at parser none partition = none
address_at parser (some full) partition = partition_at parser full partition

unfoldable pub first_address :
    Parser → (base : Option Text) → Text → (partition : Option Text) → Option Address
first_address parser base url partition = address_at parser (resolve_url parser base url) partition

unfoldable pub log_url : (redact_query : Bool) → Text → Text
log_url redact_query url = if redact_query then redact_url url else url

-- The partition of an address, if there is one.
abbrev pub partition_of : Option Address → Option Text
partition_of none = none
partition_of (some a) = some (a.partition_name)

partition_of-named : (full : Text) (p : Option Text) → partition_of (named full p) ≡ p
partition_of-named full none = refl
partition_of-named full (some p) = refl

partition_of-address_at :
    (parser : Parser) (full : Option Text)
    → partition_of (address_at parser full none) ≡ host_at parser full
partition_of-address_at parser none = refl
partition_of-address_at parser (some full) = partition_of-named full (host_of (parser full none))

partition_of-address_named :
    (parser : Parser) (full : Option Text) (p : Text) (a : Address)
    → address_at parser full (some p) ≡ some a
    → some p ≡ some (a.partition_name)
partition_of-address_named parser none p a e = ground (arith, e)
partition_of-address_named parser (some full) p a e = ap partition_of e

-- Events that report the partition before it is known agree with the first attempt: whenever that has
-- an address, for any parser, base, URL and request, `tryResolvePartition` gives the partition of that address.
pub try_resolve_partition-first_address :
    (parser : Parser) (base : Option Text) (url : Text) (partition : Option Text) (a : Address)
    → first_address parser base url partition ≡ some a
    → try_resolve_partition parser base url partition ≡ some (a.partition_name)
unfolding try_resolve_partition first_address
try_resolve_partition-first_address parser base url none a e =
    sym (partition_of-address_at parser (resolve_url parser base url)) ∙ ap partition_of e
try_resolve_partition-first_address parser base url (some p) a e =
    partition_of-address_named parser (resolve_url parser base url) p a e

-- An address is a URL that the parser has accepted: with a base, a URL that does not resolve against it
-- has none, whatever partition is named.
pub first_address-unresolved :
    (parser : Parser) (url : Text) (c : ℕ) (base : Text) (partition : Option Text)
    → parser url (some (c ∷ base)) ≡ none
    → first_address parser (some (c ∷ base)) url partition ≡ none
unfolding resolve_url first_address
first_address-unresolved parser url c base partition h =
    ap (λ u. address_at parser (href_of u) partition) h

-- Without a base, and with no partition named, a URL that is not absolute has none either.
pub first_address-relative :
    (parser : Parser) (url : Text)
    → parser url none ≡ none
    → first_address parser none url none ≡ none
unfolding resolve_url first_address
first_address-relative parser url h = ap (λ u. named url (host_of u)) h
