-- ===== src/Options/Rocker/Fields.antt =====
-- The fields of the struct `RockerOptions`, and its `Default`.
use text.Mathlib.Text.{◌==◌ as str_eq}
use ex_rocket.Prelude.{true, Option, none, some, List, [], ◌∷◌, String, if◌then◌else◌}
use ex_rocket.Options.Rocker.Types.{
  FieldType, bool, i32, c_int, usize, size_t, u64, u32, c_uint, i64, f64, c_double, string, flag,
  RockerOptions,
}

-- The first entry of a table for `name`.
unfoldable pub lookup : {A : Type 0} → String → List (String × A) → Option A
lookup name [] = none
lookup name ((key, a) ∷ rest) = if str_eq name key then some a else lookup name rest

abbrev pub fields : List (String × FieldType)
fields =
    ("create_if_missing", bool)
    ∷ ("create_missing_column_families", bool)
    ∷ ("set_error_if_exists", bool)
    ∷ ("set_paranoid_checks", bool)
    ∷ ("increase_parallelism", i32)
    ∷ ("optimize_level_style_compaction", usize)
    ∷ ("optimize_universal_style_compaction", usize)
    ∷ ("set_compression_type", string)
    ∷ ("set_bottommost_compression_type", string)
    ∷ ("set_zstd_max_train_bytes", c_int)
    ∷ ("set_compaction_readahead_size", usize)
    ∷ ("set_level_compaction_dynamic_level_bytes", bool)
    ∷ ("set_optimize_filters_for_hits", bool)
    ∷ ("set_delete_obsolete_files_period_micros", u64)
    ∷ ("set_max_open_files", c_int)
    ∷ ("set_max_file_opening_threads", c_int)
    ∷ ("set_use_fsync", bool)
    ∷ ("set_db_log_dir", string)
    ∷ ("set_log_level", string)
    ∷ ("set_bytes_per_sync", u64)
    ∷ ("set_wal_bytes_per_sync", u64)
    ∷ ("set_writable_file_max_buffer_size", u64)
    ∷ ("set_allow_concurrent_memtable_write", bool)
    ∷ ("set_enable_write_thread_adaptive_yield", bool)
    ∷ ("set_max_sequential_skip_in_iterations", u64)
    ∷ ("set_use_direct_reads", bool)
    ∷ ("set_use_direct_io_for_flush_and_compaction", bool)
    ∷ ("set_is_fd_close_on_exec", bool)
    ∷ ("set_table_cache_num_shard_bits", c_int)
    ∷ ("set_target_file_size_multiplier", i32)
    ∷ ("set_min_write_buffer_number", c_int)
    ∷ ("set_max_write_buffer_number", c_int)
    ∷ ("set_write_buffer_size", usize)
    ∷ ("set_db_write_buffer_size", usize)
    ∷ ("set_max_bytes_for_level_base", u64)
    ∷ ("set_max_bytes_for_level_multiplier", f64)
    ∷ ("set_max_manifest_file_size", usize)
    ∷ ("set_target_file_size_base", u64)
    ∷ ("set_min_write_buffer_number_to_merge", c_int)
    ∷ ("set_level_zero_file_num_compaction_trigger", c_int)
    ∷ ("set_level_zero_slowdown_writes_trigger", c_int)
    ∷ ("set_level_zero_stop_writes_trigger", c_int)
    ∷ ("set_compaction_style", string)
    ∷ ("set_unordered_write", bool)
    ∷ ("set_max_subcompactions", u32)
    ∷ ("set_max_background_jobs", c_int)
    ∷ ("set_disable_auto_compactions", bool)
    ∷ ("set_memtable_huge_page_size", size_t)
    ∷ ("set_max_successive_merges", usize)
    ∷ ("set_bloom_locality", u32)
    ∷ ("set_inplace_update_support", bool)
    ∷ ("set_inplace_update_locks", usize)
    ∷ ("set_max_bytes_for_level_multiplier_additional", string)
    ∷ ("set_max_write_buffer_size_to_maintain", i64)
    ∷ ("set_enable_pipelined_write", bool)
    ∷ ("set_min_level_to_compress", c_int)
    ∷ ("set_report_bg_io_stats", bool)
    ∷ ("set_max_total_wal_size", u64)
    ∷ ("set_wal_recovery_mode", string)
    ∷ ("enable_statistics", bool)
    ∷ ("set_stats_dump_period_sec", c_uint)
    ∷ ("set_stats_persist_period_sec", c_uint)
    ∷ ("set_advise_random_on_open", bool)
    ∷ ("set_use_adaptive_mutex", bool)
    ∷ ("set_num_levels", c_int)
    ∷ ("set_memtable_prefix_bloom_ratio", f64)
    ∷ ("set_max_compaction_bytes", u64)
    ∷ ("set_wal_dir", string)
    ∷ ("set_wal_ttl_seconds", u64)
    ∷ ("set_wal_size_limit_mb", u64)
    ∷ ("set_manifest_preallocation_size", usize)
    ∷ ("set_skip_stats_update_on_db_open", bool)
    ∷ ("set_keep_log_file_num", usize)
    ∷ ("set_allow_mmap_writes", bool)
    ∷ ("set_allow_mmap_reads", bool)
    ∷ ("set_manual_wal_flush", bool)
    ∷ ("set_atomic_flush", bool)
    ∷ ("set_ratelimiter", string)
    ∷ ("set_max_log_file_size", usize)
    ∷ ("set_log_file_time_to_roll", usize)
    ∷ ("set_recycle_log_file_num", usize)
    ∷ ("set_soft_pending_compaction_bytes_limit", usize)
    ∷ ("set_hard_pending_compaction_bytes_limit", usize)
    ∷ ("set_arena_block_size", usize)
    ∷ ("set_dump_malloc_stats", bool)
    ∷ ("set_memtable_whole_key_filtering", bool)
    ∷ ("set_enable_blob_files", bool)
    ∷ ("set_min_blob_size", u64)
    ∷ ("set_blob_file_size", u64)
    ∷ ("set_blob_compression_type", string)
    ∷ ("set_enable_blob_gc", bool)
    ∷ ("set_blob_gc_age_cutoff", c_double)
    ∷ ("set_blob_gc_force_threshold", c_double)
    ∷ ("set_blob_compaction_readahead_size", u64)
    ∷ ("set_prefix_extractor_prefix_length", usize)
    ∷ ("merge_operator", string)
    ∷ []

unfoldable pub field_type : String → Option FieldType
unfolding lookup
field_type name = lookup name fields

-- All fields are `None` but one.
abbrev pub default : {F : Type 0} → RockerOptions F
default name = if str_eq "create_if_missing" name then some (flag true) else none
