-- ===== src/Usage.antt =====
-- core/hotspot_stats.py, `build_usage_report`. The percentages, which are floats, and the group that
-- they select, near_limit, are left out; so are the texts that show byte counts.
pub mod Accounts
use mikrotik_bot.Prelude.{
  ℕ, zero, suc, ◌+◌, String, string_eq, Bool, true, false, ◌&&◌, ◌||◌, not, Option, none, some,
  List, [], ◌∷◌, if◌then◌else◌, filter, length, take, get_or, ℤ, pos, ◌+ℤ◌, is_positive, ◌==◌,
}
use mikrotik_bot.Dict.{get}
use mikrotik_bot.Action.{Action, give, ◌>>=◌}
use mikrotik_bot.Client.{Row, Client, Texts, is_text}
use mikrotik_bot.Hotspot.Purge.{ge_ℤ}

pub record UsageRow : Type 0 where
  pub name : String
  pub profile : String
  pub is_disabled : Bool
  pub bytes_in : ℤ
  pub bytes_out : ℤ
  pub total_bytes : ℤ
  pub limit : ℤ
  pub comment : String

-- int(u.get(field, 0) or 0), where a ValueError gives 0
unfoldable pub int_or_zero : Texts → String → Row → ℤ
int_or_zero text field u =
    let written = get_or (get u field) "" in
    if is_text written then get_or (text.int written) (pos 0) else pos 0

unfoldable pub limit_of : Texts → Row → ℤ
limit_of text u =
    let limit_raw = get_or (get u "limit-bytes-total") "" in
    if is_text limit_raw && not (limit_raw == "0" || limit_raw == "0.0")
    then get_or (text.int limit_raw) (pos 0)
    else pos 0

unfoldable pub row_of : Texts → Row → UsageRow
row_of text u =
    let bytes_in = int_or_zero text "bytes-in" u in
    let bytes_out = int_or_zero text "bytes-out" u in
    record {
      name = get_or (get u "name") "";
      profile = get_or (get u "profile") "";
      is_disabled = text.lower (get_or (get u "disabled") "false") == "true";
      bytes_in = bytes_in;
      bytes_out = bytes_out;
      total_bytes = bytes_in +ℤ bytes_out;
      limit = limit_of text u;
      comment = get_or (get u "comment") "";
    }

-- the counters of the loop
pub record Counts : Type 0 where
  pub total_bytes_all : ℤ
  pub active_count : ℕ
  pub disabled_count : ℕ
  pub with_limit_count : ℕ

abbrev pub no_counts : Counts
no_counts = record {
  total_bytes_all = pos 0;
  active_count = 0;
  disabled_count = 0;
  with_limit_count = 0;
}

unfoldable pub count_row : UsageRow → Counts → Counts
count_row row c = record {
  total_bytes_all = c.total_bytes_all +ℤ row.total_bytes;
  active_count = if row.is_disabled then c.active_count else c.active_count + 1;
  disabled_count = if row.is_disabled then c.disabled_count + 1 else c.disabled_count;
  with_limit_count = if is_positive row.limit then c.with_limit_count + 1 else c.with_limit_count;
}

-- the loop over the users: its rows, and its counters
unfoldable pub rows_of : Texts → List Row → List UsageRow
rows_of text [] = []
rows_of text (u ∷ users) = row_of text u ∷ rows_of text users

unfoldable pub count_rows : List UsageRow → Counts → Counts
count_rows [] c = c
count_rows (row ∷ rows) c = count_rows rows (count_row row c)

-- sorted(rows, key=…, reverse=True): rows of equal totals keep their order
unfoldable pub insert : UsageRow → List UsageRow → List UsageRow
insert row [] = row ∷ []
insert row (other ∷ rows) =
    let later = insert row rows in
    if ge_ℤ row.total_bytes other.total_bytes then row ∷ other ∷ rows else other ∷ later

unfoldable pub by_usage : List UsageRow → List UsageRow
by_usage [] = []
by_usage (row ∷ rows) = insert row (by_usage rows)

abbrev pub is_used_up : UsageRow → Bool
is_used_up row = is_positive row.limit && ge_ℤ row.total_bytes row.limit

pub record UsageReport : Type 0 where
  pub total : ℕ
  pub counts : Counts
  pub top_consumers : List UsageRow
  pub expired : List UsageRow
  pub inactive : List UsageRow
  pub rows : List UsageRow

-- the report on the users that the router listed
unfoldable pub report_of : Texts → ℕ → List Row → UsageReport
report_of text top_n users =
    let rows = rows_of text users in
    record {
      total = length rows;
      counts = count_rows rows no_counts;
      top_consumers = take top_n (by_usage rows);
      expired = filter is_used_up rows;
      inactive = filter (λ row. row.is_disabled) rows;
      rows = rows;
    }

unfoldable pub build_usage_report :
    {W : Type 0} → Client W → Texts → String → ℕ → Action W UsageReport
build_usage_report api text k top_n =
    api.execute_long k "ip/hotspot/user/print"
      ((".proplist", ".id,name,profile,disabled,bytes-in,bytes-out,limit-bytes-total,comment") ∷ [])
    >>= λ users. give (report_of text top_n users)
