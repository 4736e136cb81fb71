-- ===== src/Options/Rocker/Steps.antt =====
-- The statements of `From<RockerOptions> for Options` in the order of the source, an entry for each
-- `if`.
use ex_rocket.Prelude.{List, [], ◌∷◌, ◌++◌, String}

pub data Step : Type 0 where
  -- `if !opts.field.is_none() { db_opts.setter(opts.field.unwrap()); }`
  plain : String → String → Step
  -- The same, with the compression that the field names.
  compression : String → String → Step
  log_level compaction_style multipliers recovery_mode statistics ratelimiter : Step
  fixed_prefix merge_operator : Step

-- From `create_if_missing` to `set_wal_bytes_per_sync`.
abbrev pub steps_0 : List Step
steps_0 =
    plain "create_if_missing" "create_if_missing"
    ∷ plain "create_missing_column_families" "create_missing_column_families"
    ∷ plain "set_error_if_exists" "set_error_if_exists"
    ∷ plain "set_paranoid_checks" "set_paranoid_checks"
    ∷ plain "increase_parallelism" "increase_parallelism"
    ∷ plain "optimize_level_style_compaction" "optimize_level_style_compaction"
    ∷ plain "optimize_universal_style_compaction" "optimize_universal_style_compaction"
    ∷ compression "set_compression_type" "set_compression_type"
    ∷ compression "set_bottommost_compression_type" "set_bottommost_compression_type"
    ∷ plain "set_zstd_max_train_bytes" "set_zstd_max_train_bytes"
    ∷ plain "set_compaction_readahead_size" "set_compaction_readahead_size"
    ∷ plain "set_level_compaction_dynamic_level_bytes" "set_level_compaction_dynamic_level_bytes"
    ∷ plain "set_optimize_filters_for_hits" "set_optimize_filters_for_hits"
    ∷ plain "set_delete_obsolete_files_period_micros" "set_delete_obsolete_files_period_micros"
    ∷ plain "set_max_open_files" "set_max_open_files"
    ∷ plain "set_max_file_opening_threads" "set_max_file_opening_threads"
    ∷ plain "set_use_fsync" "set_use_fsync"
    ∷ plain "set_db_log_dir" "set_db_log_dir"
    ∷ log_level
    ∷ plain "set_bytes_per_sync" "set_bytes_per_sync"
    ∷ plain "set_wal_bytes_per_sync" "set_wal_bytes_per_sync"
    ∷ []

-- From `set_writable_file_max_buffer_size` to `set_enable_pipelined_write`.
abbrev pub steps_1 : List Step
steps_1 =
    plain "set_writable_file_max_buffer_size" "set_writable_file_max_buffer_size"
    ∷ plain "set_allow_concurrent_memtable_write" "set_allow_concurrent_memtable_write"
    ∷ plain "set_enable_write_thread_adaptive_yield" "set_enable_write_thread_adaptive_yield"
    ∷ plain "set_max_sequential_skip_in_iterations" "set_max_sequential_skip_in_iterations"
    ∷ plain "set_use_direct_reads" "set_use_direct_reads"
    ∷ plain "set_use_direct_io_for_flush_and_compaction"
        "set_use_direct_io_for_flush_and_compaction"
    ∷ plain "set_is_fd_close_on_exec" "set_is_fd_close_on_exec"
    ∷ plain "set_table_cache_num_shard_bits" "set_table_cache_num_shard_bits"
    ∷ plain "set_target_file_size_multiplier" "set_target_file_size_multiplier"
    ∷ plain "set_min_write_buffer_number" "set_min_write_buffer_number"
    ∷ plain "set_max_write_buffer_number" "set_max_write_buffer_number"
    ∷ plain "set_write_buffer_size" "set_write_buffer_size"
    ∷ plain "set_db_write_buffer_size" "set_db_write_buffer_size"
    ∷ plain "set_max_bytes_for_level_base" "set_max_bytes_for_level_base"
    ∷ plain "set_max_bytes_for_level_multiplier" "set_max_bytes_for_level_multiplier"
    ∷ plain "set_max_manifest_file_size" "set_max_manifest_file_size"
    ∷ plain "set_target_file_size_base" "set_target_file_size_base"
    ∷ plain "set_min_write_buffer_number_to_merge" "set_min_write_buffer_number_to_merge"
    ∷ plain "set_level_zero_file_num_compaction_trigger"
        "set_level_zero_file_num_compaction_trigger"
    ∷ plain "set_level_zero_slowdown_writes_trigger" "set_level_zero_slowdown_writes_trigger"
    ∷ plain "set_level_zero_stop_writes_trigger" "set_level_zero_stop_writes_trigger"
    ∷ compaction_style
    ∷ plain "set_unordered_write" "set_unordered_write"
    ∷ plain "set_max_subcompactions" "set_max_subcompactions"
    ∷ plain "set_max_background_jobs" "set_max_background_jobs"
    ∷ plain "set_disable_auto_compactions" "set_disable_auto_compactions"
    ∷ plain "set_memtable_huge_page_size" "set_memtable_huge_page_size"
    ∷ plain "set_max_successive_merges" "set_max_successive_merges"
    ∷ plain "set_bloom_locality" "set_bloom_locality"
    ∷ plain "set_inplace_update_support" "set_inplace_update_support"
    ∷ plain "set_inplace_update_locks" "set_inplace_update_locks"
    ∷ multipliers
    ∷ plain "set_max_write_buffer_size_to_maintain" "set_max_write_buffer_size_to_maintain"
    ∷ plain "set_enable_pipelined_write" "set_enable_pipelined_write"
    ∷ []

-- From `set_min_level_to_compress` to `set_enable_blob_files`.
abbrev pub steps_2 : List Step
steps_2 =
    plain "set_min_level_to_compress" "set_min_level_to_compress"
    ∷ plain "set_report_bg_io_stats" "set_report_bg_io_stats"
    ∷ plain "set_max_total_wal_size" "set_max_total_wal_size"
    ∷ recovery_mode
    ∷ statistics
    ∷ plain "set_stats_dump_period_sec" "set_stats_dump_period_sec"
    ∷ plain "set_stats_persist_period_sec" "set_stats_persist_period_sec"
    ∷ plain "set_advise_random_on_open" "set_advise_random_on_open"
    ∷ plain "set_use_adaptive_mutex" "set_use_adaptive_mutex"
    ∷ plain "set_num_levels" "set_num_levels"
    ∷ plain "set_memtable_prefix_bloom_ratio" "set_memtable_prefix_bloom_ratio"
    ∷ plain "set_max_compaction_bytes" "set_max_compaction_bytes"
    ∷ plain "set_wal_dir" "set_wal_dir"
    ∷ plain "set_wal_ttl_seconds" "set_wal_ttl_seconds"
    ∷ plain "set_wal_size_limit_mb" "set_wal_size_limit_mb"
    ∷ plain "set_manifest_preallocation_size" "set_manifest_preallocation_size"
    ∷ plain "set_skip_stats_update_on_db_open" "set_skip_stats_update_on_db_open"
    ∷ plain "set_keep_log_file_num" "set_keep_log_file_num"
    ∷ plain "set_allow_mmap_writes" "set_allow_mmap_writes"
    ∷ plain "set_allow_mmap_reads" "set_allow_mmap_reads"
    ∷ plain "set_manual_wal_flush" "set_manual_wal_flush"
    ∷ plain "set_atomic_flush" "set_atomic_flush"
    ∷ ratelimiter
    ∷ plain "set_max_log_file_size" "set_max_log_file_size"
    ∷ plain "set_log_file_time_to_roll" "set_log_file_time_to_roll"
    ∷ plain "set_recycle_log_file_num" "set_recycle_log_file_num"
    ∷ plain "set_soft_pending_compaction_bytes_limit" "set_soft_pending_compaction_bytes_limit"
    ∷ plain "set_hard_pending_compaction_bytes_limit" "set_hard_pending_compaction_bytes_limit"
    ∷ plain "set_arena_block_size" "set_arena_block_size"
    ∷ plain "set_dump_malloc_stats" "set_dump_malloc_stats"
    ∷ plain "set_memtable_whole_key_filtering" "set_memtable_whole_key_filtering"
    ∷ plain "set_enable_blob_files" "set_enable_blob_files"
    ∷ []

-- From `set_min_blob_size` to `merge_operator`.
abbrev pub steps_3 : List Step
steps_3 =
    plain "set_min_blob_size" "set_min_blob_size"
    ∷ plain "set_blob_file_size" "set_blob_file_size"
    ∷ compression "set_blob_compression_type" "set_blob_compression_type"
    ∷ plain "set_enable_blob_gc" "set_enable_blob_gc"
    ∷ plain "set_blob_gc_age_cutoff" "set_blob_gc_age_cutoff"
    ∷ plain "set_blob_gc_force_threshold" "set_blob_gc_force_threshold"
    ∷ plain "set_blob_compaction_readahead_size" "set_blob_compaction_readahead_size"
    ∷ fixed_prefix
    ∷ merge_operator
    ∷ []

abbrev pub steps : List Step
steps = steps_0 ++ (steps_1 ++ (steps_2 ++ (steps_3)))
