-- ===== src/Bindings/Lua.antt =====
-- lua/llprofpm.cpp: the hook of the Lua interpreter. A name is the address of its text, which is the
-- name's number too; 0 is NULL. `none` is a failure of a handler.
use llprof.Base.{ℕ, Option, none, some, Text, codes, ◌==◌, if◌then◌else◌, ◌>>=◌}
use llprof.Registry.{Registry}
use llprof.CallTree.{Tree, call_handler, return_handler}

-- `p` is the text that the pointer leads to.
unfoldable pub lua_name_func : ℕ → Option Text → Text
lua_name_func nameid p =
    if nameid == 0 then codes "(null)" else elim p [ some name ↦ name | none ↦ codes "(invalid)" ]

pub data LuaEvent : Type 0 where
  hook_call : LuaEvent
  hook_ret : LuaEvent
  hook_tail_ret : LuaEvent
  hook_other : LuaEvent

-- `lua_llprof_hook`, with the name that `lua_getinfo` found.
unfoldable pub lua_llprof_hook :
    Registry → (ℕ → ℕ) → LuaEvent → ℕ → Option Text → Tree → Option Tree
unfolding lua_name_func
lua_llprof_hook g read hook_call p name t = call_handler g read p (some (lua_name_func p name)) t
lua_llprof_hook g read hook_ret p name t = do
  ti ← return_handler g read t.thread
  some (record t { thread = ti })
lua_llprof_hook g read hook_tail_ret p name t = do
  ti ← return_handler g read t.thread
  some (record t { thread = ti })
lua_llprof_hook g read hook_other p name t = some t
