-- ===== src/Gateway/Configs.antt =====
-- nux_gateway/src/handlers/configs.rs and the rows of nux_gateway/src/models.rs: `put_config` and
-- `get_config` over the table of configurations.
use nux_auth.Prelude.{
  ◌≡◌, refl, ap, ◌∙◌, Bool, true, List, [], Option, none, some, arith, bytes_eq, if◌then◌else◌, not,
  Bool-cases, ok, err, ◌>>=◌, is_some, inl, inr,
}
use nux_auth.Prelude.Assoc.{lookup, insert, lookup-insert}
use nux_auth.Gateway.{
  Text, AppError, AppResult, RateLimit, Allow, CheckSum, ConfigNodeGuardInput, ConfigNodeGuard,
  Parsers, require, validate_input,
}
use nux_auth.Gateway.Roles.{roles_for_config, commands}
use nux_auth.Node.{GuardControl}

-- `serde_json` for one type.
pub record Serde (T : Type 0) : Type 0 where
  pub to_string : T → Text
  pub from_str : Text → Option T
  pub reads_back : (v : T) → from_str (to_string v) ≡ some v

pub record Json : Type 0 where
  pub rate_limit : Serde RateLimit
  pub allow : Serde (List Allow)
  pub check_sum : Serde (List CheckSum)

pub record ConfigNodeGuardRow : Type 0 where
  pub uuid : Text
  pub rate_limit_json : Text
  pub allow_json : Text
  pub check_sum_json : Text
  pub updated_at : Text

abbrev pub Table : Type 0
Table = List (Text × ConfigNodeGuardRow)

-- Whether the connection and the statement work.
pub record Database : Type 0 where
  pub rows : Table
  pub works : Bool

module _ (json : Json) where
  unfoldable pub into_row : ConfigNodeGuard → Text → ConfigNodeGuardRow
  into_row config updated_at = record {
    uuid = config.uuid;
    rate_limit_json = json.rate_limit.to_string config.rate_limit;
    allow_json = json.allow.to_string config.allow;
    check_sum_json = json.check_sum.to_string config.check_sum;
    updated_at = updated_at;
  }

  -- `From<ConfigNodeGuardRow>`; `none` is the panic of an `expect`.
  unfoldable pub from_row : ConfigNodeGuardRow → Option ConfigNodeGuard
  from_row row = elim (json.rate_limit.from_str row.rate_limit_json) [
    | none ↦ none
    | some rate_limit ↦ elim (json.allow.from_str row.allow_json) [
      | none ↦ none
      | some allow ↦ elim (json.check_sum.from_str row.check_sum_json) [
        | none ↦ none
        | some check_sum ↦ some (record {
          uuid = row.uuid;
          rate_limit = rate_limit;
          allow = allow;
          check_sum = check_sum;
          updated_at = row.updated_at;
        })
      ]
    ]
  ]

  from_row-into_row :
      (config : ConfigNodeGuard) (now : Text)
      → from_row (into_row config now) ≡ some (record config { updated_at = now })
  unfolding from_row into_row
  from_row-into_row config now = ground (
    arith,
    json.rate_limit.reads_back config.rate_limit,
    json.allow.reads_back config.allow,
    json.check_sum.reads_back config.check_sum,
  )

-- The configuration that an input stands for.
abbrev pub config_of : Text → ConfigNodeGuardInput → Text → ConfigNodeGuard
config_of uuid input updated_at = record {
  uuid = uuid;
  rate_limit = input.rate_limit;
  allow = input.allow;
  check_sum = input.check_sum;
  updated_at = updated_at;
}

-- What a request comes to: the table, the commands for the Guard, and the answer; an answer `none`
-- is a panic of the handler.
pub record Handled (Peer : Type 0) : Type 0 where
  pub table : Table
  pub sent : List (GuardControl Peer)
  pub answer : Option (AppResult ConfigNodeGuard)

module _ {Peer : Type 0} (parse : Parsers Peer) (json : Json) where
  abbrev pub refused : Database → AppError → Handled Peer
  refused db x = record { table = db.rows; sent = []; answer = some (err x) }

  unfoldable pub save : Database → ConfigNodeGuardRow → Handled Peer
  save db row =
      if db.works
      then record {
        table = insert bytes_eq row.uuid row db.rows;
        sent = elim (from_row json row) [
          | none ↦ []
          | some saved ↦ commands (roles_for_config parse saved)
        ];
        answer = elim (from_row json row) [ none ↦ none | some saved ↦ some (ok saved) ];
      }
      else refused db AppError.internal

  -- The two checks before anything is written.
  unfoldable pub check_put : Text → ConfigNodeGuardInput → AppResult (Unit {0})
  check_put uuid input = do _ ← require (is_some (parse.peer_id uuid)); validate_input parse input

  unfoldable pub put_config : Database → Text → ConfigNodeGuardInput → Text → Handled Peer
  unfolding save check_put
  put_config db uuid input now = elim (check_put uuid input) [
    | err x ↦ refused db x
    | ok _ ↦ save db (into_row json (config_of uuid input []) now)
  ]

  unfoldable pub get_config : Database → Text → Option (AppResult ConfigNodeGuard)
  get_config db uuid =
      if not (is_some (parse.peer_id uuid))
      then some (err AppError.bad_request)
      else if not db.works
      then some (err AppError.internal)
      else elim (lookup bytes_eq uuid db.rows) [
        | none ↦ some (err AppError.not_found)
        | some row ↦ elim (from_row json row) [ none ↦ none | some saved ↦ some (ok saved) ]
      ]

  save-reads :
      (rows : Table) (row : ConfigNodeGuardRow) (saved : ConfigNodeGuard)
      → from_row json row ≡ some saved
      → save (record { rows = rows; works = true }) row ≡ record {
        table = insert bytes_eq row.uuid row rows;
        sent = commands (roles_for_config parse saved);
        answer = some (ok saved);
      }
  unfolding save
  save-reads rows row saved h = rw h refl

  get_config-insert :
      (rows : Table) (row : ConfigNodeGuardRow) (saved : ConfigNodeGuard) (q : Text)
      → is_some (parse.peer_id row.uuid) ≡ true
      → from_row json row ≡ some saved
      → get_config (record { rows = insert bytes_eq row.uuid row rows; works = true }) q ≡ (
          if bytes_eq.beq row.uuid q
          then some (ok saved)
          else get_config (record { rows = rows; works = true }) q)
  unfolding get_config
  get_config-insert rows row saved q named h =
      let at = lookup-insert bytes_eq row.uuid q row rows in
      let same : bytes_eq.beq row.uuid q ≡ true → row.uuid ≡ q = (bytes_eq.beq_iff row.uuid q).0 in
      elim (Bool-cases (bytes_eq.beq row.uuid q)) [
        | inl hit ↦
            let known : is_some (parse.peer_id q) ≡ true = rw (← same hit) named in
            rw (at, hit, known, h) refl
        | inr off ↦ rw (at, off) refl
      ]

  check_put-ok :
      (uuid : Text) (input : ConfigNodeGuardInput)
      → is_some (parse.peer_id uuid) ≡ true
      → validate_input parse input ≡ ok tt
      → check_put uuid input ≡ ok tt
  unfolding check_put
  check_put-ok uuid input named valid = rw named valid

  put_config-save :
      (db : Database) (uuid : Text) (input : ConfigNodeGuardInput) (now : Text)
      → is_some (parse.peer_id uuid) ≡ true
      → validate_input parse input ≡ ok tt
      → put_config db uuid input now ≡ save db (into_row json (config_of uuid input []) now)
  unfolding put_config
  put_config-save db uuid input now named valid =
      rw (put_config, check_put-ok uuid input named valid) refl

  -- A configuration that is accepted is answered as it was given, with the time of the call, and its
  -- roles are sent to the Guard; from then on `get_config` answers it for that identity, and every
  -- other identity as before.
  pub put_config-get :
      (rows : Table) (uuid other : Text) (input : ConfigNodeGuardInput) (now : Text)
      → is_some (parse.peer_id uuid) ≡ true
      → validate_input parse input ≡ ok tt
      → let r = put_config (record { rows = rows; works = true }) uuid input now in
        let saved = config_of uuid input now in
        (r.answer ≡ some (ok saved))
        × (r.sent ≡ commands (roles_for_config parse saved))
        × (get_config (record { rows = r.table; works = true }) other ≡ (
            if bytes_eq.beq uuid other
            then some (ok saved)
            else get_config (record { rows = rows; works = true }) other))
  unfolding into_row
  put_config-get rows uuid other input now named valid =
      let row = into_row json (config_of uuid input []) now in
      let saved = config_of uuid input now in
      let reads = from_row-into_row json (config_of uuid input []) now in
      let done =
        put_config-save (record { rows = rows; works = true }) uuid input now named valid
        ∙ save-reads rows row saved reads in
      (
        ap (λ r. r.answer) done,
        ap (λ r. r.sent) done,
        ap (λ r. get_config (record { rows = r.table; works = true }) other) done
            ∙ get_config-insert rows row saved other named reads,
      )
