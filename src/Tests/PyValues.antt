-- ===== src/Tests/PyValues.antt =====
-- A value of the interface to pyo3: Python objects as trees.
use rustyknife.Nom.{Err, incomplete, error, failure}
use rustyknife.Prelude.{ℕ, List, [], ◌∷◌, Bytes, codes}
use rustyknife.Pymod.Objects.{Python}

mutual
  pub data PyValue : Type 0 where
    none_value : PyValue
    str_value : Bytes → PyValue
    bytes_value : Bytes → PyValue
    int_value : ℕ → PyValue
    tuple_value : PyValues → PyValue
    list_value : PyValues → PyValue
    dict_value : PyItems → PyValue

  pub data PyValues : Type 0 where
    no_values : PyValues
    and_value : PyValue → PyValues → PyValues

  pub data PyItems : Type 0 where
    no_items : PyItems
    and_item : Bytes → PyValue → PyItems → PyItems

abbrev pub values : List PyValue → PyValues
values [] = no_values
values (v ∷ vs) = and_value v (values vs)

abbrev pub items : List (Bytes × PyValue) → PyItems
items [] = no_items
items ((k, v) ∷ kvs) = and_item k v (items kvs)

abbrev pub err_text : Err → Bytes
err_text incomplete = codes "Incomplete"
err_text error = codes "Error(())"
err_text failure = codes "Failure(())"

instance abbrev pub trees : Python
trees = record {
  Object = PyValue;
  py_none = none_value;
  py_str = str_value;
  py_bytes = bytes_value;
  py_int = int_value;
  py_tuple = λ vs. tuple_value (values vs);
  py_list = λ vs. list_value (values vs);
  py_dict = λ kvs. dict_value (items kvs);
  debug_err = err_text;
}
