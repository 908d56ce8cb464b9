-- ===== src/Bindings/Ruby.antt =====
-- rrprofext/rrprof.cpp: the names of methods and the hooks of the Ruby interpreter. `rb_class2name`,
-- `rb_id2name` and the method of the present frame are arguments.
mod Examples
use llprof.Base.{
  ℕ, ◌-◌, ◌*◌, ◌%◌, ◌^◌, Bool, ◌&&◌, Option, none, some, ◌++◌, Text, codes, take, ◌==◌,
  if◌then◌else◌, ◌>>=◌,
}
use llprof.Registry.{Registry}
use llprof.CallTree.{Tree, ThreadInfo, call_handler, return_handler}

-- `ruby_name_info_t`
pub record RubyNameInfo : Type 0 where
  pub klass : ℕ
  pub id : ℕ

abbrev pub namebuf_size : ℕ
namebuf_size = 64

-- `snprintf` keeps the last byte of the buffer for its 0.
unfoldable pub rrprof_name_func : (ℕ → Text) → (ℕ → Text) → ℕ → Option RubyNameInfo → Text
rrprof_name_func class2name id2name nameid none = codes "(null)"
rrprof_name_func class2name id2name nameid (some info) =
    if info.klass == 0 && info.id == 0
    then codes "(null)"
    else take (namebuf_size - 1) (class2name info.klass ++ (codes "::" ++ id2name info.id))

unfoldable pub nameinfo_to_nameid : RubyNameInfo → ℕ
nameinfo_to_nameid info = info.klass * info.id % 2 ^ 64

-- The name that the call hook works out: its arguments for a call of a C function, else the method
-- of the frame, `rb_frame_method_id_and_class`.
abbrev pub hook_info : Bool → RubyNameInfo → Option RubyNameInfo → RubyNameInfo
hook_info c_call given frame =
    if c_call then given else elim frame [ some info ↦ info | none ↦ record { klass = 0; id = 0 } ]

unfoldable pub rrprof_calltree_call_hook :
    Registry
    → (ℕ → ℕ)
    → (ℕ → Text)
    → (ℕ → Text)
    → Bool
    → RubyNameInfo
    → Option RubyNameInfo
    → Tree
    → Option Tree
unfolding rrprof_name_func nameinfo_to_nameid
rrprof_calltree_call_hook g read class2name id2name c_call given frame t =
    let info = hook_info c_call given frame in
    let nameid = nameinfo_to_nameid info in
    call_handler g read nameid (some (rrprof_name_func class2name id2name nameid (some info))) t

unfoldable pub rrprof_calltree_ret_hook : Registry → (ℕ → ℕ) → ThreadInfo → Option ThreadInfo
rrprof_calltree_ret_hook g read ti = return_handler g read ti
