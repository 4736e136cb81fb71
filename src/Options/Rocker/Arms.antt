-- ===== src/Options/Rocker/Arms.antt =====
-- The arms of the `match` in `RockerOptions::decode`: the key of each, and the field it assigns. The
-- type that an arm decodes to is the type of its field.
use ex_rocket.Prelude.{List, [], ◌∷◌, ◌++◌, String}

-- From `create_if_missing` to `set_db_log_dir`.
abbrev pub arms_0 : List (String × String)
arms_0 =
    ("create_if_missing", "create_if_missing")
    ∷ ("create_missing_column_families", "create_missing_column_families")
    ∷ ("set_error_if_exists", "set_error_if_exists")
    ∷ ("set_paranoid_checks", "set_paranoid_checks")
    ∷ ("increase_parallelism", "increase_parallelism")
    ∷ ("optimize_level_style_compaction", "optimize_level_style_compaction")
    ∷ ("optimize_universal_style_compaction", "optimize_universal_style_compaction")
    ∷ ("set_compression_type", "set_compression_type")
    ∷ ("set_bottommost_compression_type", "set_bottommost_compression_type")
    ∷ ("set_zstd_max_train_bytes", "set_zstd_max_train_bytes")
    ∷ ("set_compaction_readahead_size", "set_compaction_readahead_size")
    ∷ ("set_level_compaction_dynamic_level_bytes", "set_level_compaction_dynamic_level_bytes")
    ∷ ("set_optimize_filters_for_hits", "set_optimize_filters_for_hits")
    ∷ ("set_delete_obsolete_files_period_micros", "set_delete_obsolete_files_period_micros")
    ∷ ("set_max_open_files", "set_max_open_files")
    ∷ ("set_max_file_opening_threads", "set_max_file_opening_threads")
    ∷ ("set_use_fsync", "set_use_fsync")
    ∷ ("set_db_log_dir", "set_db_log_dir")
    ∷ []

-- From `set_log_level` to `set_max_manifest_file_size`.
abbrev pub arms_1 : List (String × String)
arms_1 =
    ("set_log_level", "set_log_level")
    ∷ ("set_bytes_per_sync", "set_bytes_per_sync")
    ∷ ("set_wal_bytes_per_sync", "set_wal_bytes_per_sync")
    ∷ ("set_writable_file_max_buffer_size", "set_writable_file_max_buffer_size")
    ∷ ("set_allow_concurrent_memtable_write", "set_allow_concurrent_memtable_write")
    ∷ ("set_enable_write_thread_adaptive_yield", "set_enable_write_thread_adaptive_yield")
    ∷ ("set_max_sequential_skip_in_iterations", "set_max_sequential_skip_in_iterations")
    ∷ ("set_use_direct_reads", "set_use_direct_reads")
    ∷ ("set_use_direct_io_for_flush_and_compaction", "set_use_direct_io_for_flush_and_compaction")
    ∷ ("set_is_fd_close_on_exec", "set_is_fd_close_on_exec")
    ∷ ("set_table_cache_num_shard_bits", "set_table_cache_num_shard_bits")
    ∷ ("set_target_file_size_multiplier", "set_target_file_size_multiplier")
    ∷ ("set_min_write_buffer_number", "set_min_write_buffer_number")
    ∷ ("set_max_write_buffer_number", "set_max_write_buffer_number")
    ∷ ("set_write_buffer_size", "set_write_buffer_size")
    ∷ ("set_db_write_buffer_size", "set_db_write_buffer_size")
    ∷ ("set_max_bytes_for_level_base", "set_max_bytes_for_level_base")
    ∷ ("set_max_bytes_for_level_multiplier", "set_max_bytes_for_level_multiplier")
    ∷ ("set_max_manifest_file_size", "set_max_manifest_file_size")
    ∷ []

-- From `set_target_file_size_base` to `set_min_level_to_compress`.
abbrev pub arms_2 : List (String × String)
arms_2 =
    ("set_target_file_size_base", "set_target_file_size_base")
    ∷ ("set_min_write_buffer_number_to_merge", "set_min_write_buffer_number_to_merge")
    ∷ ("set_level_zero_file_num_compaction_trigger", "set_level_zero_file_num_compaction_trigger")
    ∷ ("set_level_zero_slowdown_writes_trigger", "set_level_zero_slowdown_writes_trigger")
    ∷ ("set_level_zero_stop_writes_trigger", "set_level_zero_stop_writes_trigger")
    ∷ ("set_compaction_style", "set_compaction_style")
    ∷ ("set_unordered_write", "set_unordered_write")
    ∷ ("set_max_subcompactions", "set_max_subcompactions")
    ∷ ("set_max_background_jobs", "set_max_background_jobs")
    ∷ ("set_disable_auto_compactions", "set_disable_auto_compactions")
    ∷ ("set_memtable_huge_page_size", "set_memtable_huge_page_size")
    ∷ ("set_max_successive_merges", "set_max_successive_merges")
    ∷ ("set_bloom_locality", "set_bloom_locality")
    ∷ ("set_inplace_update_support", "set_inplace_update_support")
    ∷ ("set_inplace_update_locks", "set_inplace_update_locks")
    ∷ (
      "set_max_bytes_for_level_multiplier_additional",
      "set_max_bytes_for_level_multiplier_additional",
    )
    ∷ ("set_max_write_buffer_size_to_maintain", "set_max_write_buffer_size_to_maintain")
    ∷ ("set_enable_pipelined_write", "set_enable_pipelined_write")
    ∷ ("set_min_level_to_compress", "set_min_level_to_compress")
    ∷ []

-- From `set_report_bg_io_stats` to `set_allow_mmap_reads`.
abbrev pub arms_3 : List (String × String)
arms_3 =
    ("set_report_bg_io_stats", "set_report_bg_io_stats")
    ∷ ("set_max_total_wal_size", "set_max_total_wal_size")
    ∷ ("set_wal_recovery_mode", "set_wal_recovery_mode")
    ∷ ("enable_statistics", "enable_statistics")
    ∷ ("set_stats_dump_period_sec", "set_stats_dump_period_sec")
    ∷ ("set_stats_persist_period_sec", "set_stats_persist_period_sec")
    ∷ ("set_advise_random_on_open", "set_advise_random_on_open")
    ∷ ("set_use_adaptive_mutex", "set_use_adaptive_mutex")
    ∷ ("set_num_levels", "set_num_levels")
    ∷ ("set_memtable_prefix_bloom_ratio", "set_memtable_prefix_bloom_ratio")
    ∷ ("set_max_compaction_bytes", "set_max_compaction_bytes")
    ∷ ("set_wal_dir", "set_wal_dir")
    ∷ ("set_wal_ttl_seconds", "set_wal_ttl_seconds")
    ∷ ("set_wal_size_limit_mb", "set_wal_size_limit_mb")
    ∷ ("set_manifest_preallocation_size", "set_manifest_preallocation_size")
    ∷ ("set_skip_stats_update_on_db_open", "set_skip_stats_update_on_db_open")
    ∷ ("set_keep_log_file_num", "set_keep_log_file_num")
    ∷ ("set_allow_mmap_writes", "set_allow_mmap_writes")
    ∷ ("set_allow_mmap_reads", "set_allow_mmap_reads")
    ∷ []

-- From `set_manual_wal_flush` to `set_blob_compaction_readahead_size`.
abbrev pub arms_4 : List (String × String)
arms_4 =
    ("set_manual_wal_flush", "set_manual_wal_flush")
    ∷ ("set_atomic_flush", "set_atomic_flush")
    ∷ ("set_ratelimiter", "set_ratelimiter")
    ∷ ("set_max_log_file_size", "set_max_log_file_size")
    ∷ ("set_log_file_time_to_roll", "set_log_file_time_to_roll")
    ∷ ("set_recycle_log_file_num", "set_recycle_log_file_num")
    ∷ ("set_soft_pending_compaction_bytes_limit", "set_soft_pending_compaction_bytes_limit")
    ∷ ("set_hard_pending_compaction_bytes_limit", "set_hard_pending_compaction_bytes_limit")
    ∷ ("set_arena_block_size", "set_arena_block_size")
    ∷ ("set_dump_malloc_stats", "set_dump_malloc_stats")
    ∷ ("set_memtable_whole_key_filtering", "set_memtable_whole_key_filtering")
    ∷ ("set_enable_blob_files", "set_enable_blob_files")
    ∷ ("set_min_blob_size", "set_min_blob_size")
    ∷ ("set_blob_file_size", "set_blob_file_size")
    ∷ ("set_blob_compression_type", "set_blob_compression_type")
    ∷ ("set_enable_blob_gc", "set_enable_blob_gc")
    ∷ ("set_blob_gc_age_cutoff", "set_blob_gc_age_cutoff")
    ∷ ("set_blob_gc_force_threshold", "set_blob_gc_force_threshold")
    ∷ ("set_blob_compaction_readahead_size", "set_blob_compaction_readahead_size")
    ∷ []

-- From `set_prefix_extractor_prefix_length` to `merge_operator`.
abbrev pub arms_5 : List (String × String)
arms_5 =
    ("set_prefix_extractor_prefix_length", "set_prefix_extractor_prefix_length")
    ∷ ("merge_operator", "merge_operator")
    ∷ []

abbrev pub arms : List (String × String)
arms = arms_0 ++ (arms_1 ++ (arms_2 ++ (arms_3 ++ (arms_4 ++ (arms_5)))))
