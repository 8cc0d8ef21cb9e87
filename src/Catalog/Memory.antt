-- ===== src/Catalog/Memory.antt =====
-- storage/engines/memory.rs: the memory engine as a storage engine.
use heliondb.Error.{ok}
use heliondb.MemoryEngine
use heliondb.MemoryEngine.{MemoryEngine}
use heliondb.Catalog.{StorageEngine}

abbrev pub memory_engine : StorageEngine MemoryEngine
memory_engine = record {
  create_table = λ m meta columns. (MemoryEngine.create_table m meta.name columns, ok tt);
  drop_table = λ m name. (MemoryEngine.drop_table m name, ok tt);
  table_exists = λ m name. ok (MemoryEngine.table_exists m name);
  get_table = MemoryEngine.get_table;
  scan_visible = MemoryEngine.scan_visible;
  row_count = MemoryEngine.row_count;
  apply_write_set = MemoryEngine.apply_write_set;
  snapshot_table = MemoryEngine.snapshot_table;
  restore_table = λ m t. (MemoryEngine.restore_table m t, ok tt);
  flush = λ m. (m, ok tt);
  close = λ m. (m, ok tt);
}
