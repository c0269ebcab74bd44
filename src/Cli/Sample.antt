-- ===== src/Cli/Sample.antt =====
-- A concrete file format in the place of TOML, for the tests: every value is a text, and the texts
-- of the parts of a value are joined into the text of the whole.
use nux_auth.Prelude.{ℕ, ◌≡◌, refl, ap, List, [], ◌∷◌, Option, none, some, true}
use nux_auth.Gateway.{Text}
use nux_auth.Gateway.Sample.{join, split, split-join}
use nux_auth.Cli.{Formats, RateLimitTable, AllowTable, ExposeTable, ChecksumBinTable, Tables, Toml}
use nux_auth.Cli.Remote.{Disk}

pub record Coding (A : Type 0) : Type 0 where
  pub enc : A → Text
  pub dec : Text → A
  pub back : (a : A) → dec (enc a) ≡ a

abbrev text_coding : Coding Text
text_coding = record { enc = λ t. t; dec = λ t. t; back = λ t. refl }

abbrev head : Text → ℕ
head [] = 0
head (n ∷ t) = n

abbrev nat_coding : Coding ℕ
nat_coding = record { enc = λ n. n ∷ []; dec = head; back = λ n. refl }

module _ {A : Type 0} (c : Coding A) where
  abbrev each : List A → List Text
  each [] = []
  each (a ∷ l) = c.enc a ∷ each l

  abbrev unpack : List Text → List A
  unpack [] = []
  unpack (t ∷ ts) = c.dec t ∷ unpack ts

  pub unpack-each : (l : List A) → unpack (each l) ≡ l
  unpack-each [] = refl
  unpack-each (a ∷ l) = rw (c.back a, unpack-each l) refl

  abbrev list_coding : Coding (List A)
  list_coding = record {
    enc = λ l. join (each l);
    dec = λ t. unpack (split t);
    back = λ l. rw (split-join (each l)) (unpack-each l);
  }

  abbrev as_list : Option A → List A
  as_list none = []
  as_list (some a) = a ∷ []

  abbrev first_of : List A → Option A
  first_of [] = none
  first_of (a ∷ l) = some a

  pub first_of-as_list : (o : Option A) → first_of (as_list o) ≡ o
  first_of-as_list none = refl
  first_of-as_list (some a) = refl

  abbrev option_coding : Coding (Option A)
  option_coding = record {
    enc = λ o. list_coding.enc (as_list o);
    dec = λ t. first_of (list_coding.dec t);
    back = λ o. rw (list_coding.back (as_list o)) (first_of-as_list o);
  }

module _ {A B : Type 0} (c : Coding A) (d : Coding B) where
  abbrev left : List Text → A
  left [] = c.dec []
  left (t ∷ ts) = c.dec t

  abbrev right : List Text → B
  right (t ∷ u ∷ ts) = d.dec u
  right _ = d.dec []

  abbrev pair_coding : Coding (A × B)
  pair_coding = record {
    enc = λ x. join (c.enc x.0 ∷ d.enc x.1 ∷ []);
    dec = λ t. (left (split t), right (split t));
    back = λ x. rw (split-join (c.enc x.0 ∷ d.enc x.1 ∷ []), c.back x.0, d.back x.1) refl;
  }

abbrev via :
    {A B : Type 0} (c : Coding A) (to : A → B) (from : B → A)
    → ((b : B) → to (from b) ≡ b)
    → Coding B
via c to from same = record {
  enc = λ b. c.enc (from b);
  dec = λ t. to (c.dec t);
  back = λ b. rw (c.back (from b)) (same b);
}

abbrev texts_coding : Coding (List Text)
texts_coding = list_coding text_coding

abbrev rate_limit_coding : Coding RateLimitTable
rate_limit_coding =
    via
      (pair_coding (option_coding nat_coding)
        (pair_coding (option_coding nat_coding) (option_coding texts_coding)))
      (λ x. record { max = x.0; window_secs = x.1.0; exempt = x.1.1 })
      (λ t. (t.max, (t.window_secs, t.exempt))) (λ t. refl)

abbrev allow_coding : Coding AllowTable
allow_coding =
    via (pair_coding text_coding (option_coding texts_coding))
      (λ x. record { peer = x.0; roles = x.1 }) (λ t. (t.peer, t.roles)) (λ t. refl)

abbrev expose_coding : Coding ExposeTable
expose_coding =
    via (pair_coding text_coding (pair_coding nat_coding (option_coding text_coding)))
      (λ x. record { name = x.0; port = x.1.0; role = x.1.1 }) (λ t. (t.name, (t.port, t.role)))
      (λ t. refl)

abbrev checksum_bin_coding : Coding ChecksumBinTable
checksum_bin_coding =
    via (pair_coding text_coding text_coding) (λ x. record { peer = x.0; sha256 = x.1 })
      (λ t. (t.peer, t.sha256)) (λ t. refl)

abbrev pub tables_coding : Coding Tables
tables_coding =
    via
      (pair_coding (option_coding text_coding) (
        pair_coding (option_coding rate_limit_coding) (
          pair_coding (option_coding (list_coding allow_coding)) (
            pair_coding (option_coding (list_coding expose_coding)) (
              pair_coding (option_coding (list_coding checksum_bin_coding))
                (pair_coding (option_coding text_coding) (option_coding text_coding)))))))
      (λ x. record {
        listen = x.0;
        rate_limit = x.1.0;
        allow = x.1.1.0;
        expose = x.1.1.1.0;
        checksum_bin = x.1.1.1.1.0;
        relay = x.1.1.1.1.1.0;
        namespace = x.1.1.1.1.1.1;
      })
      (λ t.
        (t.listen, (t.rate_limit, (t.allow, (t.expose, (t.checksum_bin, (t.relay, t.namespace)))))))
      (λ t. refl)

pub put_in : (g : Tables → Tables) (d t : Tables) → some d ≡ some t → some (g d) ≡ some (g t)
put_in g d t h = cc

-- A document is the tables themselves.
abbrev pub toy_toml : Toml Tables
toy_toml = record {
  from_str = λ t. some (tables_coding.dec t);
  parse = λ t. some (tables_coding.dec t);
  to_string = tables_coding.enc;
  tables = some;
  set_rate_limit = λ x d. record d { rate_limit = some x };
  set_allow = λ x d. record d { allow = some x };
  set_checksum_bin = λ x d. record d { checksum_bin = some x };
  from_str_printed = λ d. ap some (tables_coding.back d);
  from_str_parsed = λ t d h. h;
  rate_limit_set = λ x. put_in (λ d. record d { rate_limit = some x });
  allow_set = λ x. put_in (λ d. record d { allow = some x });
  checksum_bin_set = λ x. put_in (λ d. record d { checksum_bin = some x });
}

abbrev pub toy_disk : Disk
toy_disk = record { write = λ old t. (some t, true); written = λ old t h. refl }

abbrev number : Text → Option ℕ
number [] = none
number (n ∷ t) = some n

abbrev pub toy_formats : Formats ℕ Text ℕ Text
toy_formats = record {
  multiaddr = some;
  ip_addr = number;
  peer_id = number;
  namespace = some;
  hex_decode = some;
  trim = λ t. t;
}
