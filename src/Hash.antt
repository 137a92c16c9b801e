-- ===== src/Hash.antt =====
-- hash.c: open addressing with linear probing. What the four flavours of table share stands in
-- `Table` and is proved in the modules below it; each flavour has a module of its own.
pub mod Keys
pub mod Table
pub mod Htable
pub mod Vindex
pub mod Hmap
pub mod Bst
