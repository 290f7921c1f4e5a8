-- ===== src/Scripts/Resources.antt =====
-- scripts/sample_resources.py: the sizes in the output of `docker stats`, and the rows that are written. The
-- arithmetic of floats is a parameter; `str.upper` is that of ASCII.
pub mod Sizes
use distributed_model_server.Prelude.{
  ℕ, zero, suc, ◌+◌, ◌-◌, ◌*◌, Text, codes, Bool, true, false, not, ◌&&◌, ◌||◌, List, [], ◌∷◌, ◌++◌,
  Option, none, some, map, ltb, leb, ◌==◌, if◌then◌else◌, length, filter_by, text_eq, starts_with,
}
use distributed_model_server.Gateway.Config.{strip, split_commas, add_char}
use distributed_model_server.Logging.{upper}

-- `parse` is `float(text)`, and `scaled x n` is `int(x * n)`; both may raise an exception.
pub record Floats : Type 1 where
  pub Float : Type 0
  pub Int : Type 0
  pub parse : Text → Option Float
  pub scaled : Float → ℕ → Option Int
  pub zero_float : Float
  pub zero_int : Int

-- `t.endswith(p)`
unfoldable pub ends_with : Text → Text → Bool
ends_with [] p = text_eq [] p
ends_with (c ∷ t) p = if text_eq (c ∷ t) p then true else ends_with t p

-- `t.replace(p, "")` for a text `p` that is not empty, with so many characters of `p` still to skip.
unfoldable pub remove : Text → ℕ → Text → Text
remove p skip [] = []
remove p (suc skip) (c ∷ t) = remove p skip t
remove p zero (c ∷ t) =
    let kept = remove p 0 t in
    let removed = remove p (length p - 1) t in if starts_with (c ∷ t) p then removed else c ∷ kept

abbrev pub multipliers : List (Text × ℕ)
multipliers =
    (codes "KIB", 1024)
    ∷ (codes "MIB", 1024 * 1024)
    ∷ (codes "GIB", 1024 * 1024 * 1024)
    ∷ (codes "KB", 1000)
    ∷ (codes "MB", 1000 * 1000)
    ∷ (codes "GB", 1000 * 1000 * 1000)
    ∷ (codes "B", 1)
    ∷ []

abbrev is_line_break : ℕ → Bool
is_line_break c =
    (leb 10 c && leb c 13)
    || ((leb 28 c && leb c 30) || ((c == 133) || ((c == 8232) || (c == 8233))))

-- `t.splitlines()` for a text that does not end in a line break, but is not empty; a line feed behind a
-- carriage return belongs to it.
unfoldable pub split_lines : Bool → Text → List Text
split_lines after_cr [] = [] ∷ []
split_lines after_cr (c ∷ t) =
    let rest = split_lines (c == 13) t in
    if after_cr && (c == 10) then rest else if is_line_break c then [] ∷ rest else add_char c rest

-- `out.strip().splitlines()`
abbrev lines_of : Text → List Text
unfolding strip split_lines
lines_of out = elim (strip out) [ [] ↦ [] | c ∷ t ↦ split_lines false (c ∷ t) ]

-- `t.split("/", 1)` if there is a `/` in it.
unfoldable pub split_slash : Text → Option (Text × Text)
split_slash [] = none
split_slash (c ∷ t) =
    if c == 47
    then some ([], t)
    else elim (split_slash t) [ none ↦ none | some (l, r) ↦ some (c ∷ l, r) ]

module _ (f : Floats) where
  abbrev pub int_of : ℕ → Option f.Float → Option f.Int
  int_of mult none = none
  int_of mult (some x) = f.scaled x mult

  -- The branch of the first unit at the end of the text.
  unfoldable pub with_units : List (Text × ℕ) → Text → Option f.Int
  unfolding ends_with remove strip
  with_units [] val = some (elim (int_of 1 (f.parse val)) [ none ↦ f.zero_int | some n ↦ n ])
  with_units ((unit, mult) ∷ units) val =
      let other = with_units units val in
      if ends_with val unit then int_of mult (f.parse (strip (remove unit 0 val))) else other

  -- `none` is an exception.
  unfoldable pub parse_bytes : Text → Option f.Int
  unfolding with_units strip
  parse_bytes val = with_units multipliers (upper (strip val))

  pub record Row : Type 0 where
    pub timestamp : Text
    pub container : Text
    pub cpu_percent : f.Float
    pub memory_bytes : f.Int
    pub memory_limit_bytes : f.Int

  pub data Line : Type 0 where
    row : Row → Line
    too_short raised : Line

  abbrev cpu_of : Text → Option f.Float
  cpu_of [] = some f.zero_float
  cpu_of (c ∷ t) = f.parse (c ∷ t)

  -- The number of bytes in use and the limit.
  abbrev memory_of : Text → Option (f.Int × f.Int)
  unfolding parse_bytes split_slash
  memory_of usage = elim (split_slash usage) [
    | none ↦ elim (parse_bytes usage) [ none ↦ none | some n ↦ some (n, f.zero_int) ]
    | some (used, limit) ↦ elim (parse_bytes used) [
      | none ↦ none
      | some n ↦ elim (parse_bytes limit) [ none ↦ none | some m ↦ some (n, m) ]
    ]
  ]

  abbrev make_row : Text → Text → Option f.Float → Option (f.Int × f.Int) → Line
  make_row ts name (some cpu) (some (used, limit)) = row (record {
    timestamp = ts;
    container = name;
    cpu_percent = cpu;
    memory_bytes = used;
    memory_limit_bytes = limit;
  })
  make_row ts name none _ = raised
  make_row ts name (some cpu) none = raised

  -- The columns of a line, `too_short` if it has fewer than three.
  unfoldable pub read_columns : Text → List Text → Line
  unfolding memory_of strip
  read_columns ts (name ∷ cpu ∷ usage ∷ more) =
      make_row ts (strip name) (cpu_of (strip (filter_by (λ c. not (c == 37)) cpu)))
        (memory_of (strip usage))
  read_columns ts _ = too_short

  -- The rows of one round; an exception drops those of the lines from there on.
  unfoldable pub rows_of : Text → List Text → List Row
  unfolding read_columns split_commas
  rows_of ts [] = []
  rows_of ts ([] ∷ lines) = rows_of ts lines
  rows_of ts ((c ∷ t) ∷ lines) =
      let rest = rows_of ts lines in
      elim (read_columns ts (split_commas (c ∷ t))) [
        | row r ↦ r ∷ rest
        | too_short ↦ rest
        | raised ↦ []
      ]

  -- A round of the loop: the time at its head, the timestamp, and the output, `none` if the call of docker
  -- raised.
  pub record Round : Type 0 where
    pub time : ℕ
    pub ts : Text
    pub out : Option Text

  abbrev rows_in : Round → List Row
  unfolding rows_of lines_of
  rows_in r = elim r.out [ none ↦ [] | some out ↦ rows_of r.ts (lines_of out) ]

  -- `while time.time() - start_time < args.duration`
  unfoldable pub sample : ℕ → ℕ → List Round → List Row
  unfolding rows_in
  sample start duration [] = []
  sample start duration (r ∷ rs) =
      let rest = sample start duration rs in
      if ltb r.time (start + duration) then rows_in r ++ rest else []
