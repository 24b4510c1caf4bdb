-- ===== src/Sim/Ids.antt =====
-- The ids that a client sees: the views of plugin/sim_plugin/simarray.py write them from row ids,
-- and `SimArray._lsm_id_to_sim_id` reads them back. Texts are lists of code points.
pub mod RoundTrip
use libstoragemgmt.Base.{
  ℕ, zero, suc, ◌+◌, ◌-◌, ◌*◌, ◌/◌, ◌%◌, ℤ, pos, negsuc, Bool, true, false, ◌&&◌, ◌||◌, Option,
  none, some, List, [], ◌∷◌, ◌++◌, ltb, leb, ◌==◌, if◌then◌else◌, length, drop,
}
use libstoragemgmt.Text.{str, zeros, last, int}
use libstoragemgmt.Common.{ErrorNumber, lsm_error, Result, ok, err}

abbrev pub id_fmt_len : ℕ
id_fmt_len = 5

-- SUBSTR('{ID_PADDING}' || id, -{ID_FMT_LEN}, {ID_FMT_LEN}) behind the prefix of the view
unfoldable pub lsm_id : List ℕ → ℕ → List ℕ
lsm_id prefix n = prefix ++ last id_fmt_len (zeros id_fmt_len ++ str n)

-- "JOB_ID_%0*d" % (_ID_FMT_LEN, n): padded, and never cut
unfoldable pub job_lsm_id : List ℕ → ℕ → List ℕ
job_lsm_id prefix n = prefix ++ zeros (id_fmt_len - length (str n)) ++ str n

read_or : Option ℤ → ErrorNumber → Result ℤ
read_or none e = err (lsm_error e)
read_or (some z) e = ok z

-- `SimArray._lsm_id_to_sim_id`
unfoldable pub lsm_id_to_sim_id : List ℕ → ErrorNumber → Result ℤ
unfolding read_or
lsm_id_to_sim_id s e = read_or (int (last id_fmt_len s)) e
