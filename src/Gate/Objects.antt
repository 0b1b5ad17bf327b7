-- ===== src/Gate/Objects.antt =====
-- What `persist` may be handed: Python checks no annotation at run time, so the gate's arguments are
-- any objects, told apart as its `isinstance` tests tell them apart.
use knokeep.Prelude.{Text, Bytes, Bool}
use knokeep.Prelude.Int.{ℤ}
use knokeep.Types.{AuthContext}

pub data Obj : Type 0 where
  none_obj other_obj : Obj
  bool_obj : Bool → Obj
  int_obj : ℤ → Obj
  -- in ticks of the clock
  float_obj : ℤ → Obj
  str_obj : Text → Obj
  bytes_obj : Bytes → Obj
  bytearray_obj : Bytes → Obj
  -- a `Lock`, with its four fields
  lock_obj : (key token expiry_epoch fence : Obj) → Obj

-- `ctx.precondition`
pub data PreconditionObj : Type 0 where
  create_only_obj other_precondition : PreconditionObj
  overwrite_obj : (expected_hash lease : Obj) → PreconditionObj

pub data CtxObj : Type 0 where
  not_a_context : CtxObj
  context : AuthContext → PreconditionObj → (operation_id : Text) → CtxObj
