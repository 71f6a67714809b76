-- ===== src/Import/Types.antt =====
-- The types of the columns that each loader names, in the loader's order.
use tpcc_oceanbase_cpp.Common.{◌≡◌, refl, List, [], ◌∷◌, Option, some}
use tpcc_oceanbase_cpp.Import.Schema.{
  ColumnType, int_type, decimal, char, varchar, timestamp, nullable, Table, warehouse, item, stock,
  district, customer, history, oorder, new_order, order_line, columns, column_types,
}
use tpcc_oceanbase_cpp.Import.Load.{bulk_columns}

abbrev pub types : Table → List (Option ColumnType)
types t = column_types (columns t) (bulk_columns t)

pub item_types :
    types item
    ≡ some int_type
      ∷ some (varchar 24)
      ∷ some (decimal 5 2)
      ∷ some (varchar 50)
      ∷ some int_type
      ∷ []
unfolding columns bulk_columns column_types
item_types = refl

pub warehouse_types :
    types warehouse
    ≡ some int_type
      ∷ some (decimal 12 2)
      ∷ some (decimal 4 4)
      ∷ some (varchar 10)
      ∷ some (varchar 20)
      ∷ some (varchar 20)
      ∷ some (varchar 20)
      ∷ some (char 2)
      ∷ some (char 9)
      ∷ []
unfolding columns bulk_columns column_types
warehouse_types = refl

pub district_types :
    types district
    ≡ some int_type
      ∷ some int_type
      ∷ some (decimal 12 2)
      ∷ some (decimal 4 4)
      ∷ some int_type
      ∷ some (varchar 10)
      ∷ some (varchar 20)
      ∷ some (varchar 20)
      ∷ some (varchar 20)
      ∷ some (char 2)
      ∷ some (char 9)
      ∷ []
unfolding columns bulk_columns column_types
district_types = refl

pub stock_types :
    types stock
    ≡ some int_type
      ∷ some int_type
      ∷ some int_type
      ∷ some (decimal 8 2)
      ∷ some int_type
      ∷ some int_type
      ∷ some (varchar 50)
      ∷ some (char 24)
      ∷ some (char 24)
      ∷ some (char 24)
      ∷ some (char 24)
      ∷ some (char 24)
      ∷ some (char 24)
      ∷ some (char 24)
      ∷ some (char 24)
      ∷ some (char 24)
      ∷ some (char 24)
      ∷ []
unfolding columns bulk_columns column_types
stock_types = refl

pub customer_types :
    types customer
    ≡ some int_type
      ∷ some int_type
      ∷ some int_type
      ∷ some (decimal 4 4)
      ∷ some (char 2)
      ∷ some (varchar 16)
      ∷ some (varchar 16)
      ∷ some (decimal 12 2)
      ∷ some (decimal 12 2)
      ∷ some (decimal 12 2)
      ∷ some int_type
      ∷ some int_type
      ∷ some (varchar 20)
      ∷ some (varchar 20)
      ∷ some (varchar 20)
      ∷ some (char 2)
      ∷ some (char 9)
      ∷ some (char 16)
      ∷ some timestamp
      ∷ some (char 2)
      ∷ some (varchar 500)
      ∷ []
unfolding columns bulk_columns column_types
customer_types = refl

pub history_types :
    types history
    ≡ some int_type
      ∷ some int_type
      ∷ some int_type
      ∷ some int_type
      ∷ some int_type
      ∷ some timestamp
      ∷ some (decimal 6 2)
      ∷ some (varchar 24)
      ∷ []
unfolding columns bulk_columns column_types
history_types = refl

pub oorder_types :
    types oorder
    ≡ some int_type
      ∷ some int_type
      ∷ some int_type
      ∷ some int_type
      ∷ some (nullable int_type)
      ∷ some int_type
      ∷ some int_type
      ∷ some timestamp
      ∷ []
unfolding columns bulk_columns column_types
oorder_types = refl

pub new_order_types : types new_order ≡ some int_type ∷ some int_type ∷ some int_type ∷ []
unfolding columns bulk_columns column_types
new_order_types = refl

pub order_line_types :
    types order_line
    ≡ some int_type
      ∷ some int_type
      ∷ some int_type
      ∷ some int_type
      ∷ some int_type
      ∷ some (nullable timestamp)
      ∷ some (decimal 6 2)
      ∷ some int_type
      ∷ some (decimal 6 2)
      ∷ some (char 24)
      ∷ []
unfolding columns bulk_columns column_types
order_line_types = refl
