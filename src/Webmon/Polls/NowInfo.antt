-- ===== src/Webmon/Polls/NowInfo.antt =====
-- Webmon/Store: MSG_NOWINFO, as `Store` reads it.
use llprof.Base.{
  ℕ, zero, suc, ◌+◌, ◌*◌, ◌≤◌, ◌≡◌, refl, ◌∙◌, true, false, some, List, [], ◌∷◌, Text, length, drop,
  length-drop, leb, ltb, le→leb, le→ltb, word32-total, word64-total, bind_some, arith,
}
use llprof.Webmon.MessageBuf.{MessageBuf, get_current, set_current_ptr, get32}
use llprof.Webmon.Samples.{read_values}
use llprof.Webmon.Nodes.{Ds, get_num_profile_values}
use llprof.Webmon.Current.{ThreadStore}
use llprof.Webmon.Store.{store_now_info, update_now_values}

read_values-total :
    (n : ℕ) (t : Text) → n * 8 ≤ length t → (vs : List ℕ) × (read_values n t ≡ some vs)
read_values-total zero t h = ([], refl)
read_values-total (suc n) t h =
    let (v, e) = word64-total t (omega (arith, h)) in
    let (vs, e') = read_values-total n (drop 8 t) (omega (arith, h, length-drop 8 t)) in
    (v ∷ vs, rw (e, e') refl)

get32-total :
    (m : MessageBuf)
    → m.ptr + 12 ≤ length m.buf
    → (v : ℕ) × (get32 m ≡ some (v, record m { ptr = m.ptr + 4 }))
get32-total m h =
    let (v, e) = word32-total (get_current m) (omega (arith, h, length-drop (m.ptr + 8) m.buf)) in
    let size = le→leb (4 + m.ptr) (length m.buf) (omega (arith, h)) in
    let room = le→leb (m.ptr + 4) (length m.buf) (omega (arith, h)) in (v, rw (size, e, room) refl)

now_info_step :
    (ds : Ds) (nibuf : MessageBuf) (ts : ThreadStore) (v : ℕ) (values : List ℕ)
    → get32 (set_current_ptr nibuf 8) ≡ some (v, record nibuf { ptr = 12 })
    → leb (get_num_profile_values ds * 8 + 24) (length nibuf.buf) ≡ true
    → ltb (length nibuf.buf) 24 ≡ false
    → read_values (get_num_profile_values ds) (drop 24 nibuf.buf) ≡ some values
    → store_now_info ds nibuf ts ≡ some (update_now_values v values ts)
unfolding store_now_info
now_info_step ds nibuf ts v values e size long e' =
    bind_some (get32 (set_current_ptr nibuf 8)) _ (v, record nibuf { ptr = 12 }) e
    ∙ rw (size, long, e') refl

-- A message that is long enough is read.
pub store_now_info-total :
    (ds : Ds) (nibuf : MessageBuf) (ts : ThreadStore)
    → get_num_profile_values ds * 8 + 24 ≤ length nibuf.buf
    → (v : ℕ) × (values : List ℕ) × (store_now_info ds nibuf ts
        ≡ some (update_now_values v values ts))
store_now_info-total ds nibuf ts h =
    let n = get_num_profile_values ds in
    let (v, e) = get32-total (set_current_ptr nibuf 8) (omega (arith, h)) in
    let (values, e') =
      read_values-total n (drop 24 nibuf.buf) (omega (arith, h, length-drop 24 nibuf.buf)) in
    (
      v,
      values,
      now_info_step ds nibuf ts v values e (le→leb (n * 8 + 24) (length nibuf.buf) h)
          (le→ltb (length nibuf.buf) 24 (omega (arith, h))) e',
    )
