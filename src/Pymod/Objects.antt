-- ===== src/Pymod/Objects.antt =====
-- src/pymod.rs: the objects that the bindings return.
use rustyknife.External.{External}
use rustyknife.Nom.{IResult, ok, err, Err}
use rustyknife.Prelude.{
  ℕ, Bool, true, false, ◌&&◌, not, List, [], ◌∷◌, ◌++◌, Option, none, some, Bytes, codes,
  if◌then◌else◌,
}
use rustyknife.Headersection.{HeaderField, valid, invalid}
use rustyknife.Rfc3461.MailParams.{
  DsnRet, full, hdrs, DsnMailParams, Reason, duplicate_ret, invalid_ret, duplicate_envid,
  envid_too_long, invalid_envid, ret_without_value, envid_without_value,
}
use rustyknife.Rfc3461.MailParams as Dsn
use rustyknife.Rfc5321.Commands.{ForwardPath, forward, post_master, ReversePath, reverse, null}
use rustyknife.Rfc5321.Params as Esmtp
use rustyknife.Rfc5322.Addresses.{Mailbox, Group, Address, mailbox_address, group_address}
use rustyknife.Types.{display_mailbox}
use rustyknife.Xforward as Xforward

abbrev pub is_empty : Bytes → Bool
is_empty [] = true
is_empty (_ ∷ _) = false

-- pyo3 and the `Debug` form of nom's errors: `PyTuple::new`, `PyBytes::new`, `PyDict` with its
-- items in the order in which they are set, lists, and the conversions of strings and integers.
pub record Python : Type 1 where
  pub Object : Type 0
  pub py_none : Object
  pub py_str : Bytes → Object
  pub py_bytes : Bytes → Object
  pub py_int : ℕ → Object
  pub py_tuple : List Object → Object
  pub py_list : List Object → Object
  pub py_dict : List (Bytes × Object) → Object
  pub debug_err : Err → Bytes

-- `PyResult`: a `ValueError` of the module, or the `OSError` of opening or mapping a file
pub data PyResult (A : Type 0) : Type 0 where
  returned : A → PyResult A
  raised : Bytes → PyResult A
  os_error : Bytes → PyResult A

abbrev pub map_result : {A B : Type 0} → (A → B) → PyResult A → PyResult B
map_result f (returned a) = returned (f a)
map_result f (raised message) = raised message
map_result f (os_error message) = os_error message

-- The texts of the errors of `dsn_mail_params`.
unfoldable pub reason_text : Reason → Bytes
reason_text duplicate_ret = codes "Duplicate RET"
reason_text invalid_ret = codes "Invalid RET"
reason_text duplicate_envid = codes "Duplicate ENVID"
reason_text envid_too_long = codes "ENVID over 100 bytes"
reason_text invalid_envid = codes "Invalid ENVID"
reason_text ret_without_value = codes "RET without value"
reason_text envid_without_value = codes "ENVID without value"

module _ ⦃py : Python⦄ where
  abbrev pub Object : Type 0
  Object = py.Object

  abbrev pub objects : {A : Type 0} → (A → Object) → List A → List Object
  objects f [] = []
  objects f (a ∷ as') = f a ∷ objects f as'

  -- `Option<String>`
  abbrev pub optional : Option Bytes → Object
  optional none = py.py_none
  optional (some s) = py.py_str s

  unfoldable pub convert_result : {A : Type 0} → IResult A → Bool → PyResult A
  convert_result (ok rem out) match_all =
      if match_all && not (is_empty rem)
      then raised (codes "Whole input did not match")
      else returned out
  convert_result (err e) match_all = raised (py.debug_err e ++ codes ".")

  unfoldable pub xforward_param_into_py : Xforward.Param → Object
  xforward_param_into_py p = py.py_tuple (py.py_str p.name ∷ optional p.value ∷ [])

  unfoldable pub esmtp_param_into_py : Esmtp.Param → Object
  esmtp_param_into_py p = py.py_tuple (py.py_str p.keyword ∷ optional p.value ∷ [])

  abbrev pub ret_name : Option DsnRet → Option Bytes
  ret_name (some hdrs) = some (codes "HDRS")
  ret_name (some full) = some (codes "FULL")
  ret_name none = none

  unfoldable pub dsn_mail_params_into_py : DsnMailParams → Object
  dsn_mail_params_into_py p =
      py.py_dict ((codes "envid", optional p.envid) ∷ (codes "ret", optional (ret_name p.ret)) ∷ [])

  -- a name and perhaps a value, as `dsn_mail_params` leaves them over
  abbrev pub dsn_param_into_py : Dsn.Param → Object
  dsn_param_into_py (name, value) = py.py_tuple (py.py_str name ∷ optional value ∷ [])

  -- One field of the header section.
  unfoldable pub field_into_py : HeaderField → Object
  field_into_py (valid name value) = py.py_tuple (py.py_bytes name ∷ py.py_bytes value ∷ [])
  field_into_py (invalid line) = py.py_tuple (py.py_none ∷ py.py_bytes line ∷ [])

  module _ ⦃ext : External⦄ where
    unfoldable pub mailbox_into_py : Mailbox → Object
    mailbox_into_py m = py.py_tuple (optional m.dname ∷ py.py_str (display_mailbox m.address) ∷ [])

    unfoldable pub group_into_py : Group → Object
    unfolding mailbox_into_py
    group_into_py g =
        py.py_tuple (py.py_str g.dname ∷ py.py_list (objects mailbox_into_py g.members) ∷ [])

    unfoldable pub address_into_py : Address → Object
    unfolding mailbox_into_py group_into_py
    address_into_py (mailbox_address m) = mailbox_into_py m
    address_into_py (group_address g) = group_into_py g

    unfoldable pub forward_path_into_py : ForwardPath → Object
    forward_path_into_py (forward p) = py.py_str (display_mailbox p.path_mailbox)
    forward_path_into_py (post_master none) = py.py_str (codes "postmaster")
    forward_path_into_py (post_master (some d)) = py.py_str (codes "postmaster@" ++ d)

    unfoldable pub reverse_path_into_py : ReversePath → Object
    reverse_path_into_py (reverse p) = py.py_str (display_mailbox p.path_mailbox)
    reverse_path_into_py null = py.py_str []
