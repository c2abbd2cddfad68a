-- ===== src/Scripts/MotionRecord.antt =====
-- read_motion_file of scripts/plot_together.py, which scripts/plot_axis_vol.py writes out too: the
-- columns of a text file of recorded motion data.
pub mod Lists
pub mod Reads
use edm_project.Prelude.{
  ℕ, suc, String, Option, none, some, List, [], ◌∷◌, ◌++◌, get_elem?, str_eq, if◌then◌else◌, map,
}
use edm_project.Python.Exec.{Result, ok, err, builtin, index_error, key_error, and_then}
use edm_project.Python.Text.{strip, split_tab}

abbrev pub header_strs : String
header_strs =
    "tick_us\tcmd_s\tact_s\tis_drilling\tkn_detected\tbreakout_detected\tdetect_started\tdetect_state\trealtime_voltage\taveraged_voltage\tkn\tkn_valid_rate\tkn_cnt"

-- A dict of lists of texts, in the order of insertion.
abbrev pub Columns : Type 0
Columns = List (String × List String)

-- `data_motion[key].append(v)`
unfoldable pub append_to : String → String → Columns → Result Columns
append_to key v [] = err (builtin key_error)
append_to key v ((k, vs) ∷ data_motion) =
    let rest = append_to key v data_motion in
    if str_eq k key
    then ok ((k, vs ++ v ∷ []) ∷ data_motion)
    else and_then rest (λ data_motion'. ok ((k, vs) ∷ data_motion'))

-- `headers[i]`
abbrev pub header_at : List String → ℕ → Result String
header_at headers i = elim (get_elem? headers i) [
  | none ↦ err (builtin index_error)
  | some h ↦ ok h
]

-- The loop over the columns of one line, from number `i` on.
unfoldable pub store_columns : List String → ℕ → List String → Columns → Result Columns
store_columns headers i [] data_motion = ok data_motion
store_columns headers i (column ∷ columns) data_motion =
    and_then (header_at headers i)
      λ h. and_then (append_to h column data_motion) (store_columns headers (suc i) columns)

-- The columns of a line.
abbrev pub columns_of : String → List String
columns_of line = split_tab (strip line)

-- The loop over the lines.
unfoldable pub store_lines : List String → List String → Columns → Result Columns
store_lines headers [] data_motion = ok data_motion
store_lines headers (line ∷ lines) data_motion =
    and_then (store_columns headers 0 (columns_of line) data_motion) (store_lines headers lines)

-- The lists of a new dict are empty.
unfoldable pub new_columns : List String → Columns
new_columns headers = map (λ h. (h, [])) headers

-- `lines` are those of the file.
unfoldable pub read_motion_file : List String → Result Columns
read_motion_file lines =
    let headers = split_tab header_strs in store_lines headers lines (new_columns headers)
